-- ===== src/Etcd/Memory.antt =====
-- A server in memory, for tests: each call takes one answer from a script, and fails if that is
-- `false`. After the script every call is answered.
use my_cni.Prelude.{◌≡◌, Bool, true, false, List, [], ◌∷◌, Option, none, some, arith, if◌then◌else◌}
use my_cni.Text.{Bytes, same}
use my_cni.Text.Equal.{same_iff}
use my_cni.Exec.{Result, ok, err, message}
use my_cni.Etcd.{Etcd, IsLawful, found}

pub record Server : Type 0 where
  pub store : List (Bytes × Bytes)
  pub script : List Bool

abbrev pub look : Bytes → List (Bytes × Bytes) → Option Bytes
look k [] = none
look k ((j, v) ∷ m) = if same j k then some v else look k m

abbrev pub without : Bytes → List (Bytes × Bytes) → List (Bytes × Bytes)
without k [] = []
without k ((j, v) ∷ m) = let rest = without k m in if same j k then rest else (j, v) ∷ rest

abbrev next : List Bool → Bool
next [] = true
next (b ∷ bs) = b

abbrev rest : List Bool → List Bool
rest [] = []
rest (b ∷ bs) = bs

abbrev answer : {A : Type 0} → Bool → A → List (Bytes × Bytes) → Server → Result A × Server
answer true a m s = (ok a, record { store = m; script = rest s.script })
answer false a m s = (err (message "etcd"), record s { script = rest s.script })

abbrev pub memory : Etcd
memory = record {
  State = Server;
  get = λ k s. answer (next s.script) (found (look k s.store)) s.store s;
  put = λ k v s. answer (next s.script) tt ((k, v) ∷ s.store) s;
  delete = λ k s. answer (next s.script) tt (without k s.store) s;
}

pub look-without :
    (k j : Bytes) (m : List (Bytes × Bytes))
    → look j (without k m) ≡ (if same k j then none else look j m)
look-without k j [] = ground arith
look-without k j ((i, v) ∷ m) =
    ground (arith, look-without k j m, same_iff i k, same_iff i j, same_iff k j)

-- The server in memory does what etcd documents; it is up when its script is over.
unfoldable pub memory-IsLawful : IsLawful memory
memory-IsLawful = record {
  contents = λ s k. look k s.store;
  IsUp = λ s. s.script ≡ [];
  get_up = λ s k up. rw up;
  get_same = λ s k j. ground arith;
  get_stays = λ s k up. rw up;
  put_up = λ s k v up. rw up;
  put_sets = λ s k v j up. rw up;
  put_stays = λ s k v up. rw up;
  delete_up = λ s k up. rw up;
  delete_clears = λ s k j up. rw up (look-without k j s.store);
  delete_stays = λ s k up. rw up;
}
