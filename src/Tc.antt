-- ===== src/Tc.antt =====
-- tc/bpf_helper.go: programs are attached to links by `tc` commands, run by a shell. The shell is a
-- parameter: a command gives what it printed, and an error if it failed.
pub mod Attach
use my_cni.Prelude.{
  Bool, true, false, ◌&&◌, ◌==◌, List, [], ◌∷◌, ◌++◌, Option, none, some, if◌then◌else◌,
}
use my_cni.Text.{Bytes, codes}
use my_cni.Exec.{Exec, Error, Result, ok, err, message, pure, raise, ◌>>=◌, ◌>>◌}

pub record Shell : Type 1 where
  pub State : Type 0
  pub output : Bytes → State → (Bytes × Option Error) × State

-- `ingress`, `egress`, or another text.
pub data Direction : Type 0 where
  ingress egress other : Direction

abbrev pub starts_with : Bytes → Bytes → Bool
starts_with [] s = true
starts_with (c ∷ p) [] = false
starts_with (c ∷ p) (d ∷ s) = c == d && starts_with p s

-- `strings.Contains(s, p)`.
unfoldable pub has_text : Bytes → Bytes → Bool
has_text p [] = starts_with p []
has_text p (c ∷ s) = if starts_with p (c ∷ s) then true else has_text p s

unfoldable pub get_veth_ingress_path : Bytes
get_veth_ingress_path = codes "/opt/cni/bin/veth_ingress.bpf.o"

unfoldable pub get_vxlan_ingress_path : Bytes
get_vxlan_ingress_path = codes "/opt/cni/bin/vxlan_ingress.bpf.o"

unfoldable pub get_vxlan_egress_path : Bytes
get_vxlan_egress_path = codes "/opt/cni/bin/vxlan_egress.bpf.o"

abbrev pub show_command : Bytes → Bytes
show_command dev = codes "tc qdisc show dev " ++ dev

abbrev pub add_command : Bytes → Bytes
add_command dev = codes "tc qdisc add dev " ++ dev ++ codes " clsact"

abbrev pub filter_command : Bytes → Bytes → Direction → Bytes
filter_command dev prog ingress =
    codes "tc filter replace dev " ++ dev ++ codes " ingress handle 0x1 bpf da obj " ++ prog
filter_command dev prog egress =
    codes "tc filter replace dev " ++ dev ++ codes " egress handle 0x1 bpf da obj " ++ prog
filter_command dev prog other = []

module _ (S : Shell) where
  -- `o, _ := p.Output()`, and whether a text is in it.
  abbrev pub prints_text : Bytes → (Bytes × Option Error) × S.State → Result Bool × S.State
  prints_text text ((out, e), s) = (ok (has_text text out), s)

  abbrev pub shows : Bytes → Bytes → Exec S.State Bool
  shows command text s = prints_text text (S.output command s)

  abbrev pub ends : (Bytes × Option Error) × S.State → Result (Unit {0}) × S.State
  ends ((out, none), s) = (ok tt, s)
  ends ((out, some e), s) = (err e, s)

  -- `_, err := p.Output()`.
  abbrev pub runs : Bytes → Exec S.State (Unit {0})
  runs command s = ends (S.output command s)

  unfoldable pub exist_on_ingress : Bytes → Exec S.State Bool
  exist_on_ingress device =
      shows (codes "tc qdisc show dev " ++ device ++ codes " ingress") (codes "direct-action")

  unfoldable pub exist_on_egress : Bytes → Exec S.State Bool
  exist_on_egress device =
      shows (codes "tc qdisc show dev " ++ device ++ codes " engress") (codes "direct-action")

  unfoldable pub exist_clsact : Bytes → Exec S.State Bool
  exist_clsact dev = shows (show_command dev) (codes "clsact")

  unfoldable pub add_clsact : Bytes → Exec S.State (Unit {0})
  add_clsact device = runs (add_command device)

  abbrev pub unless : Bool → Exec S.State (Unit {0}) → Exec S.State (Unit {0})
  unless true m = pure tt
  unless false m = m

  unfoldable pub attach_bpf_to_device : Bytes → Bytes → Direction → Exec S.State (Unit {0})
  attach_bpf_to_device device prog dir = do
    there ← exist_clsact device
    unless there (add_clsact device)
    runs (filter_command device prog dir)

  unfoldable pub attach_bpf_to_tc : Bytes → Bytes → Direction → Exec S.State (Unit {0})
  attach_bpf_to_tc device prog direct = do
    there ← exist_clsact device
    unless there (add_clsact device)
    elim direct [
      | ingress ↦ do
        attached ← exist_on_ingress device
        unless attached (attach_bpf_to_device device prog ingress)
      | egress ↦ do
        attached ← exist_on_egress device
        unless attached (attach_bpf_to_device device prog egress)
      | other ↦ raise (message "Unknown error: cannot attach bpf to netdevice!")
    ]

  unfoldable pub detach_bpf : Bytes → Exec S.State (Unit {0})
  detach_bpf device = runs (codes "tc filter delete dev " ++ device ++ codes " clsact")

  abbrev shown : (Bytes × Option Error) × S.State → Result Bytes × S.State
  shown ((out, none), s) = (ok out, s)
  shown ((out, some e), s) = (err e, s)

  unfoldable pub show_bpf : Bytes → Bytes → Exec S.State Bytes
  show_bpf dev direct s =
      shown (S.output (codes "tc filter show dev " ++ dev ++ codes " " ++ direct) s)
