-- ===== src/Utils/Kubeconf.antt =====
-- utils/conf_helper.go and consts/consts.go: the configuration file of Kubernetes and the address of the
-- master in it. The file system and the regular expressions are parameters.
use my_cni.Prelude.{◌≡◌, refl, Bool, Option, none, some, ◌++◌, if◌then◌else◌}
use my_cni.Text.{Bytes, codes}
use my_cni.Exec.{Result, ok, err, panic, hang}

-- `os.Stat`, `ioutil.ReadFile`, `regexp2.Compile` and `FindStringMatch`, which gives nil where nothing
-- matches.
pub record Files : Type 1 where
  pub Regexp : Type 0
  pub stat : Bytes → Result (Unit {0})
  pub read_file : Bytes → Result Bytes
  pub compile : Bytes → Result Regexp
  pub find : Regexp → Bytes → Result (Option Bytes)

abbrev and_then : {A B : Type 0} → Result A → (A → Result B) → Result B
and_then (ok a) f = f a
and_then (err e) f = err e
and_then panic f = panic
and_then hang f = hang

abbrev went_well : Result (Unit {0}) → Bool
went_well (ok u) = Bool.true
went_well _ = Bool.false

-- `res.String()` of a nil match is a nil pointer.
abbrev text_of : Option Bytes → Result Bytes
text_of none = panic
text_of (some text) = ok text

module _ (F : Files) where
  unfoldable pub path_exists : Bytes → Bool
  path_exists path = went_well (F.stat path)

  unfoldable pub get_config_path : Bytes
  get_config_path =
      if path_exists (codes "invalid")
      then codes "invalid"
      else if path_exists (codes "invalid")
      then codes "invalid"
      else codes "/home/ubuntu/workspace/src/mycni/foo.yaml"

  unfoldable pub get_line_from_yaml : Bytes → Bytes → Result Bytes
  get_line_from_yaml yml key =
      and_then (F.compile (codes "(?<=" ++ (key ++ codes ": )(.*)")))
        (λ r. and_then (F.find r yml) text_of)

  unfoldable pub get_master_node_ip : Result Bytes
  get_master_node_ip =
      and_then (F.read_file get_config_path) (λ text. get_line_from_yaml text (codes "server"))

  -- A configuration without a line `server` ends in a panic.
  pub master-missing :
      (text : Bytes) (r : F.Regexp)
      → F.read_file get_config_path ≡ ok text
      → F.compile (codes "(?<=server: )(.*)") ≡ ok r
      → F.find r text ≡ ok none
      → get_master_node_ip ≡ panic
  unfolding get_master_node_ip get_line_from_yaml
  master-missing text r reads compiles finds = rw (reads, compiles, finds) refl
