-- ===== src/Local/Store/Maps.antt =====
-- The map of addresses: what an insertion and a deletion change, and what stays true of it.
use my_cni.Prelude.{
  ◌≡◌, refl, true, false, List, [], ◌∷◌, none, some, arith, if◌then◌else◌, Bool-cases, inl, inr,
}
use my_cni.Text.{Bytes, same}
use my_cni.Text.Equal.{same_refl, same_comm, same_iff}
use my_cni.Local.Store.{ContainerNetInfo, key_of, insert, erase, has_key}

abbrev pub Entries : Type 0
Entries = List (Bytes × ContainerNetInfo)

-- An address stands once, and a container has one address.
abbrev pub IsValid : Entries → Type 0
IsValid [] = Unit
IsValid ((k, i) ∷ m) = (has_key k m ≡ false) × (key_of i.id m ≡ none) × IsValid m

-- A predicate of every address.
abbrev pub Keys : (Bytes → Type 0) → Entries → Type 0
Keys P [] = Unit
Keys P ((k, i) ∷ m) = P k × Keys P m

pub has_key-insert :
    (k j : Bytes) (i : ContainerNetInfo) (m : Entries)
    → has_key j (insert k i m) ≡ (if same k j then true else has_key j m)
unfolding has_key insert
has_key-insert k j i [] = refl
has_key-insert k j i ((l, x) ∷ m) =
    ground (arith, has_key-insert k j i m, same_iff l k, same_iff l j, same_iff k j)

pub has_key-erase :
    (k j : Bytes) (m : Entries) → has_key j (erase k m) ≡ (if same k j then false else has_key j m)
unfolding has_key erase
has_key-erase k j [] = ground arith
has_key-erase k j ((l, x) ∷ m) =
    ground (arith, has_key-erase k j m, same_iff l k, same_iff l j, same_iff k j)

-- A new address is found for its container.
pub key_of-insert_new :
    (k d : Bytes) (i : ContainerNetInfo) (m : Entries)
    → has_key k m ≡ false
    → key_of d m ≡ none
    → key_of d (insert k i m) ≡ (if same i.id d then some k else none)
unfolding key_of insert has_key
key_of-insert_new k d i [] h n = refl
key_of-insert_new k d i ((l, x) ∷ m) h n = ground (arith, key_of-insert_new k d i m)

-- The other containers keep their addresses.
pub key_of-insert_other :
    (k d : Bytes) (i : ContainerNetInfo) (m : Entries)
    → has_key k m ≡ false
    → same i.id d ≡ false
    → key_of d (insert k i m) ≡ key_of d m
unfolding key_of insert has_key
key_of-insert_other k d i [] h n = ground arith
key_of-insert_other k d i ((l, x) ∷ m) h n = ground (arith, key_of-insert_other k d i m)

pub insert-IsValid :
    (k : Bytes) (i : ContainerNetInfo) (m : Entries)
    → has_key k m ≡ false
    → key_of i.id m ≡ none
    → IsValid m
    → IsValid (insert k i m)
unfolding insert has_key key_of
insert-IsValid k i [] h n v = (refl, refl, tt)
insert-IsValid k i ((l, x) ∷ m) h n (a, b, v) = ground (
  arith,
  insert-IsValid k i m,
  has_key-insert k l i m,
  key_of-insert_other k x.id i m,
  same_comm l k,
  same_comm x.id i.id,
)

pub insert-Keys :
    (P : Bytes → Type 0) (k : Bytes) (i : ContainerNetInfo) (m : Entries)
    → P k
    → Keys P m
    → Keys P (insert k i m)
unfolding insert
insert-Keys P k i [] p ps = (p, tt)
insert-Keys P k i ((l, x) ∷ m) p (q, ps) = elim (Bool-cases (same l k)) [
  | inl e ↦ rw e (p, ps)
  | inr e ↦ rw e (q, insert-Keys P k i m p ps)
]

pub erase-Keys : (P : Bytes → Type 0) (k : Bytes) (m : Entries) → Keys P m → Keys P (erase k m)
unfolding erase
erase-Keys P k [] ps = tt
erase-Keys P k ((l, x) ∷ m) (q, ps) = elim (Bool-cases (same l k)) [
  | inl e ↦ rw e (erase-Keys P k m ps)
  | inr e ↦ rw e (q, erase-Keys P k m ps)
]

-- A deletion makes no container have an address.
key_of-erase-none : (k d : Bytes) (m : Entries) → key_of d m ≡ none → key_of d (erase k m) ≡ none
unfolding key_of erase
key_of-erase-none k d [] n = refl
key_of-erase-none k d ((l, x) ∷ m) n = ground (arith, key_of-erase-none k d m)

pub erase-IsValid : (k : Bytes) (m : Entries) → IsValid m → IsValid (erase k m)
unfolding erase
erase-IsValid k [] v = tt
erase-IsValid k ((l, x) ∷ m) (a, b, v) =
    ground
      (arith, erase-IsValid k m v, has_key-erase k l m, key_of-erase-none k x.id m, same_comm l k)

-- What `key_of` finds is there.
pub key_of-has_key : (d k : Bytes) (m : Entries) → key_of d m ≡ some k → has_key k m ≡ true
unfolding key_of has_key
key_of-has_key d k [] n = cc
key_of-has_key d k ((l, x) ∷ m) n = ground (arith, key_of-has_key d k m, same_iff l k)

-- The address of a container goes, and the container has none then.
pub key_of-erase_self :
    (d k : Bytes) (m : Entries) → IsValid m → key_of d m ≡ some k → key_of d (erase k m) ≡ none
unfolding key_of erase
key_of-erase_self d k [] v n = cc
key_of-erase_self d k ((l, x) ∷ m) (a, b, v) n = ground (
  arith,
  same_iff x.id d,
  same_iff l k,
  same_refl l,
  key_of-erase-none k d m,
  key_of-erase_self d k m v,
)

-- The containers of the other addresses keep them.
pub key_of-erase_other :
    (d k j : Bytes) (m : Entries)
    → IsValid m
    → key_of d m ≡ some k
    → same k j ≡ false
    → key_of d (erase j m) ≡ some k
unfolding key_of erase
key_of-erase_other d k j [] v n e = cc
key_of-erase_other d k j ((l, x) ∷ m) (a, b, v) n e =
    ground (arith, key_of-erase_other d k j m v, same_iff l j, same_iff k j)
