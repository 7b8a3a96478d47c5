-- ===== src/Bpf/Entries.antt =====
-- What the maps give back, how often they are made, and which map a reset touches.
use my_cni.Prelude.{
  none, Bool, suc, ℕ, ◌/◌, ◌%◌, ◌^◌, ◌<◌, ◌≡◌, ◌≢◌, refl, subst, ◌∙◌, ap, true, false, List, [],
  ◌∷◌, Option, some, arith, if◌then◌else◌,
}
use my_cni.Text.{Bytes, same}
use my_cni.Text.Equal.{same_refl}
use my_cni.Exec.{from_option, continue, Exec, Result, ok, err, panic, hang}
use my_cni.Bpf.{
  bad_size, Ebpf, MapSpec, word, of_word, EndpointMapKey, EndpointMapInfo, info_bytes, info_of,
  lxc_map_path, get_map_by_pinned_path, create_map, create_pin_map_once, set_lxc_map,
  get_key_value_from_lxc_map,
}

-- The number of bytes.
abbrev size_of : Bytes → ℕ
size_of [] = 0
size_of (b ∷ bs) = suc (size_of bs)

-- Whether the key is one of the keys.
abbrev pub is_among : Bytes → List Bytes → Bool
is_among k [] = false
is_among k (j ∷ js) = if same k j then true else is_among k js

-- What the library documents: a pinned map is found at its path, a lookup gives the value that was
-- put, and a call on one map leaves the others and the pins as they are.
pub record IsLawful (B : Ebpf) : Type 1 where
  pub entry : B.State → B.Map → Bytes → Option Bytes
  pub pinned : B.State → Bytes → Option B.Map
  pub load_pin :
      (s : B.State) (p : Bytes) (m : B.Map) → pinned s p ≡ some m → B.load_pinned p s ≡ (ok m, s)
  pub load_keeps : (s : B.State) (p : Bytes) → (B.load_pinned p s).1 ≡ s
  pub pin_sets :
      (s : B.State) (p : Bytes) (m : B.Map)
      → (B.pin m p s).0 ≡ ok tt
      → (pinned (B.pin m p s).1 p ≡ some m) × (B.path_exists p (B.pin m p s).1 ≡ true)
  pub put_sets :
      (s : B.State) (m : B.Map) (k v j : Bytes)
      → (B.put m k v s).0 ≡ ok tt
      → entry (B.put m k v s).1 m j ≡ (if same k j then some v else entry s m j)
  pub put_pins : (s : B.State) (m : B.Map) (k v p : Bytes) → pinned (B.put m k v s).1 p ≡ pinned s p
  pub lookup_finds :
      (s : B.State) (m : B.Map) (k v : Bytes) (size : ℕ)
      → entry s m k ≡ some v
      → size_of v ≡ size
      → B.lookup m k size s ≡ (ok v, s)
  pub iterate_keeps : (s : B.State) (m : B.Map) (a b : ℕ) → (B.iterate m a b s).1 ≡ s
  pub batch_keeps :
      (s : B.State) (m n : B.Map) (ks : List Bytes) (j : Bytes)
      → n ≢ m
      → entry (B.batch_delete m ks s).1 n j ≡ entry s n j
  pub batch_clears :
      (s : B.State) (m : B.Map) (ks : List Bytes) (count : ℕ) (j : Bytes)
      → (B.batch_delete m ks s).0 ≡ ok count
      → entry (B.batch_delete m ks s).1 m j ≡ (if is_among j ks then none else entry s m j)

-- The fields are words, in the range of their type.
pub record IsWords (v : EndpointMapInfo) : Type 0 where
  pub lxc : v.lxc_if_index < 2 ^ 32
  pub pod : v.pod_if_index < 2 ^ 32

word-of_word :
    (n : ℕ)
    → n < 2 ^ 32
    → of_word (n % 2 ^ 8) (n / 2 ^ 8 % 2 ^ 8) (n / 2 ^ 16 % 2 ^ 8) (n / 2 ^ 24 % 2 ^ 8) ≡ n
word-of_word n h = omega arith

info_of-info_bytes : (v : EndpointMapInfo) → IsWords v → info_of (info_bytes v) ≡ some v
info_of-info_bytes v w = rw (word-of_word v.lxc_if_index w.lxc, word-of_word v.pod_if_index w.pod)

abbrev get_ok {ℓ} : {A : Type ℓ} → A → Result A → A
get_ok a (ok b) = b
get_ok a _ = a

ok_inj {ℓ} : {A : Type ℓ} {a b : A} → ok a ≡ ok b → a ≡ b
ok_inj {a = a} e = ap (get_ok a) e

-- The two calls of a sequence that ends well.
record Sequence {S A B : Type 0} (r : Result A × S) (f : A → Exec S B) (b : B) (t : S)
    : Type 0 where
  pub value : A
  pub between : S
  pub first : r ≡ (ok value, between)
  pub second : f value between ≡ (ok b, t)

sequence_lem :
    {S A B : Type 0} (r : Result A × S) (f : A → Exec S B) (b : B) (t : S)
    → continue f r ≡ (ok b, t)
    → Sequence r f b t
sequence_lem (ok a, u) f b t e = record { value = a; between = u; first = refl; second = e }
sequence_lem (err x, u) f b t e = cc
sequence_lem (panic, u) f b t e = cc
sequence_lem (hang, u) f b t e = cc

module _ {B : Ebpf} (L : IsLawful B) (s : B.State) where
  pub set_lem :
      (m : B.Map) (key : EndpointMapKey) (value : EndpointMapInfo)
      → L.pinned s lxc_map_path ≡ some m
      → set_lxc_map B key value s ≡ B.put m (word key.ip) (info_bytes value) s
  unfolding set_lxc_map get_map_by_pinned_path
  set_lem m key value p = rw (L.load_pin s lxc_map_path m p)

  pub get_lem :
      (m : B.Map) (key : EndpointMapKey) (value : EndpointMapInfo)
      → L.pinned s lxc_map_path ≡ some m
      → IsWords value
      → L.entry s m (word key.ip) ≡ some (info_bytes value)
      → get_key_value_from_lxc_map B key s ≡ (ok value, s)
  unfolding get_key_value_from_lxc_map get_map_by_pinned_path
  get_lem m key value p w e =
      rw
        (
          L.load_pin s lxc_map_path m p,
          L.lookup_finds s m (word key.ip) (info_bytes value) 24 e refl,
        )
        (ap (λ (o : Option EndpointMapInfo). from_option bad_size o s) (info_of-info_bytes value w))

module _ {B : Ebpf} (L : IsLawful B) (s : B.State) where
  -- What was set for an address in the map of containers is what a lookup of the address gives,
  -- field by field, and the lookup changes nothing.
  pub get-set_lxc_map :
      (m : B.Map) (key : EndpointMapKey) (value : EndpointMapInfo)
      → L.pinned s lxc_map_path ≡ some m
      → IsWords value
      → (set_lxc_map B key value s).0 ≡ ok tt
      → get_key_value_from_lxc_map B key (set_lxc_map B key value s).1
        ≡ (ok value, (set_lxc_map B key value s).1)
  get-set_lxc_map m key value p w o = rw (set_lem L s m key value p) (
      get_lem L (B.put m (word key.ip) (info_bytes value) s).1 m key value
        (L.put_pins s m (word key.ip) (info_bytes value) lxc_map_path ∙ p) w
        (L.put_sets s m (word key.ip) (info_bytes value) (word key.ip)
            (rw (set_lem L s m key value p) at o)
          ∙ rw (same_refl (word key.ip))))

  pinned_after :
      (path : Bytes) (mp m : B.Map) (t u : B.State)
      → continue (λ (x : Unit {0}). λ (v : B.State). (ok mp, v)) (B.pin mp path u) ≡ (ok m, t)
      → (L.pinned t path ≡ some m) × (B.path_exists path t ≡ true)
  pinned_after path mp m t u e =
      let q = sequence_lem (B.pin mp path u) (λ x v. (ok mp, v)) m t e in
      let h = L.pin_sets u path mp (ap (λ x. x.0) q.first) in
      subst (λ (v : B.State). (L.pinned v path ≡ some m) × (B.path_exists path v ≡ true))
        (ap (λ x. x.1) q.first ∙ ap (λ x. x.1) q.second)
        (h.0 ∙ ap some (ok_inj (ap (λ x. x.0) q.second)), h.1)

  -- A map that is there already is found, and nothing is made.
  pub create_found :
      (m : B.Map) (path : Bytes) (spec : MapSpec)
      → B.path_exists path s ≡ true
      → L.pinned s path ≡ some m
      → create_pin_map_once B path spec s ≡ (ok m, s)
  unfolding create_pin_map_once get_map_by_pinned_path
  create_found m path spec e p = rw (e, L.load_pin s path m p)

  -- The map of a creation that went well is at its path.
  create_at_path :
      (m : B.Map) (path : Bytes) (spec : MapSpec) (t : B.State)
      → B.path_exists path s ≡ false
      → create_pin_map_once B path spec s ≡ (ok m, t)
      → (L.pinned t path ≡ some m) × (B.path_exists path t ≡ true)
  unfolding create_pin_map_once
  create_at_path m path spec t e c =
      let q =
        sequence_lem (create_map B spec s) (λ mp u. continue (λ x v. (ok mp, v)) (B.pin mp path u))
          m t (rw e at c) in
      pinned_after path q.value m t q.between q.second

module _ {B : Ebpf} (L : IsLawful B) (s : B.State) where
  -- A map that is made is made once: the second call gives the same map and changes nothing.
  pub create_twice :
      (m : B.Map) (path : Bytes) (spec : MapSpec) (t : B.State)
      → B.path_exists path s ≡ false
      → create_pin_map_once B path spec s ≡ (ok m, t)
      → create_pin_map_once B path spec t ≡ (ok m, t)
  create_twice m path spec t e c =
      let h = create_at_path L s m path spec t e c in create_found L t m path spec h.1 h.0
