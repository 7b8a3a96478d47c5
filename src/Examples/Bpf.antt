-- ===== src/Examples/Bpf.antt =====
-- Examples of the BPF maps: a kernel that keeps its maps in memory.
use my_cni.Prelude.{
  ℕ, ◌+◌, ◌≡◌, refl, Bool, true, false, List, [], ◌∷◌, Option, none, some, arith, ◌==◌, ==_refl,
  if◌then◌else◌,
}
use my_cni.Text.{Bytes, same}
use my_cni.Text.Equal.{same_refl}
use my_cni.Exec.{Exec, ok, err, message}
use my_cni.Bpf.{
  Ebpf, word, Array8, EndpointMapKey, EndpointMapInfo, lxc_map_path, vxlan_map_path, set_lxc_map,
  get_map_by_pinned_path, get_key_value_from_lxc_map,
}
use my_cni.Bpf.Entries.{IsLawful, is_among, get-set_lxc_map}

pub record Kernel : Type 0 where
  pub pins : List (Bytes × ℕ)
  pub tables : ℕ → Bytes → Option Bytes
  pub next : ℕ

abbrev pub pin_of : Bytes → List (Bytes × ℕ) → Option ℕ
pin_of p [] = none
pin_of p ((q, m) ∷ ps) = if same q p then some m else pin_of p ps

abbrev pub given : {A : Type 0} → Option A → Exec Kernel A
given none s = (err (message "not found"), s)
given (some a) s = (ok a, s)

abbrev pub is_given : {A : Type 0} → Option A → Bool
is_given none = false
is_given (some a) = true

abbrev pub kernel : Ebpf
kernel = record {
  State = Kernel;
  Map = ℕ;
  path_exists = λ p s. is_given (pin_of p s.pins);
  load_pinned = λ p s. given (pin_of p s.pins) s;
  remove_memlock = λ s. (ok tt, s);
  new_map = λ spec s. (ok s.next, record s { next = s.next + 1 });
  pin = λ m p s. (ok tt, record s { pins = (p, m) ∷ s.pins });
  put = λ m k v s. (
    ok tt,
    record s {
      tables = λ n j. if n == m then (if same k j then some v else s.tables n j) else s.tables n j;
    },
  );
  delete = λ m k s. (
    ok tt,
    record s {
      tables = λ n j. if n == m then (if same k j then none else s.tables n j) else s.tables n j;
    },
  );
  lookup = λ m k size s. given (s.tables m k) s;
  iterate = λ m a b s. (ok (if m == 1 then word 1 ∷ [] else []), s);
  batch_delete = λ m ks s. (
    ok 0,
    record s {
      tables =
          λ n j. if n == m then (if is_among j ks then none else s.tables n j) else s.tables n j;
    },
  );
}

pub kernel-IsLawful : IsLawful kernel
kernel-IsLawful = record {
  entry = λ s m k. s.tables m k;
  pinned = λ s p. pin_of p s.pins;
  load_pin = λ s p m e. rw e;
  load_keeps = λ s p. ground arith;
  pin_sets = λ s p m o. rw (same_refl p) (refl, refl);
  put_sets = λ s m k v j o. rw (==_refl m);
  put_pins = λ s m k v p. refl;
  lookup_finds = λ s m k v size e h. rw e;
  iterate_keeps = λ s m a b. refl;
  batch_keeps = λ s m n ks j ne. ground arith;
  batch_clears = λ s m ks count j o. rw (==_refl m);
}

-- The map of containers and the map of the vxlan device are pinned.
abbrev pub start : Kernel
start = record {
  pins = (lxc_map_path, 0) ∷ (vxlan_map_path, 1) ∷ [];
  tables = λ n k. if n == 1 then (if same k (word 1) then some (word 9) else none) else none;
  next = 2;
}

abbrev mac : Array8
mac = record { b0 = 2; b1 = 4; b2 = 6; b3 = 8; b4 = 10; b5 = 12; b6 = 0; b7 = 0 }

abbrev key : EndpointMapKey
key = record { ip = 167837954 }

abbrev info : EndpointMapInfo
info = record { lxc_if_index = 7; pod_if_index = 2; lxc_veth_mac = mac; pod_veth_mac = mac }

pub lxc_pinned : kernel-IsLawful.pinned start lxc_map_path ≡ some 0
unfolding kernel-IsLawful same
lxc_pinned = refl

set_ok : (set_lxc_map kernel key info start).0 ≡ ok tt
unfolding set_lxc_map get_map_by_pinned_path same
set_ok = refl

get-set_lxc_map_example :
    get_key_value_from_lxc_map kernel key (set_lxc_map kernel key info start).1
    ≡ (ok info, (set_lxc_map kernel key info start).1)
get-set_lxc_map_example =
    get-set_lxc_map kernel-IsLawful start 0 key info lxc_pinned
      (record { lxc = omega arith; pod = omega arith }) set_ok

-- The map of containers has a value for the key of the vxlan device's entry.
abbrev with_key : Kernel
with_key = record start { tables = λ n k. if same k (word 1) then some (word 9) else none }
