-- ===== src/Subnetd/Mask.antt =====
-- The mask of the subnets: one byte for each, '0' while the subnet is free.
use my_cni.Prelude.{
  ℕ, zero, suc, ◌+◌, ◌<◌, ◌≤◌, ◌≡◌, ◌≢◌, refl, ◌∙◌, ap, [], ◌∷◌, none, some, length, get_elem?,
  ◌==◌, arith, Bool-cases, inl, inr, if◌then◌else◌,
}
use my_cni.Text.{Bytes}
use my_cni.Exec.{ok}
use my_cni.Subnetd.{find_unused, mark, zeros}

-- The first free subnet, or the number of subnets.
unfoldable pub first_free : Bytes → ℕ
first_free [] = 0
first_free (c ∷ mask) = if c == b'0' then 0 else first_free mask + 1

-- The loop with as many rounds as the mask has bytes.
pub find_unused_lem :
    (mask : Bytes) (i : ℕ) → find_unused (length mask) i mask ≡ ok (i + first_free mask)
unfolding find_unused first_free
find_unused_lem [] i = ap ok (omega arith)
find_unused_lem (c ∷ mask) i = elim (Bool-cases (c == b'0')) [
  | inl e ↦ rw e (ap ok (omega arith))
  | inr e ↦ rw e (find_unused_lem mask (i + 1) ∙ ap ok (omega arith))
]

pub first_free-le : (mask : Bytes) → first_free mask ≤ length mask
unfolding first_free
first_free-le [] = omega arith
first_free-le (c ∷ mask) = ground (arith, first_free-le mask)

pub first_free-holds :
    (mask : Bytes) → first_free mask < length mask → get_elem? mask (first_free mask) ≡ some b'0'
unfolding first_free
first_free-holds [] h = absurd (omega arith)
first_free-holds (c ∷ mask) h = elim (Bool-cases (c == b'0')) [
  | inl e ↦ rw e (ap some (ground arith))
  | inr e ↦ rw e (ap (get_elem? (c ∷ mask)) behind ∙ first_free-holds mask (ground arith))
]
  where
    behind : first_free mask + 1 ≡ suc (first_free mask)
    behind = omega arith

one_more :
    (c i : ℕ) (m mask : Bytes)
    → ((j : ℕ) → get_elem? m j ≡ (if i == j then some b'1' else get_elem? mask j))
    → (j : ℕ) → get_elem? (c ∷ m) j ≡ (if suc i == j then some b'1' else get_elem? (c ∷ mask) j)
one_more c i m mask at zero = ground arith
one_more c i m mask at (suc j) = ground (arith, at j)

-- A mark changes one byte.
pub mark_at :
    (i : ℕ) (mask : Bytes)
    → i < length mask
    → (m : Bytes) × (mark i mask ≡ some m)
      × (length m ≡ length mask)
      × ((j : ℕ) → get_elem? m j ≡ (if i == j then some b'1' else get_elem? mask j))
unfolding mark
mark_at i [] h = absurd (omega arith)
mark_at zero (c ∷ mask) h = (b'1' ∷ mask, refl, refl, at)
  where
    at :
        (j : ℕ) → get_elem? (b'1' ∷ mask) j ≡ (if 0 == j then some b'1' else get_elem? (c ∷ mask) j)
    at zero = refl
    at (suc j) = ground arith
mark_at (suc i) (c ∷ mask) h =
    let (m, marks, long, at) = mark_at i mask (omega arith) in
    (c ∷ m, rw marks refl, omega (arith, long), one_more c i m mask at)

pub mark-end : (i : ℕ) (mask : Bytes) → length mask ≤ i → mark i mask ≡ none
unfolding mark
mark-end i [] h = refl
mark-end zero (c ∷ mask) h = absurd (omega arith)
mark-end (suc i) (c ∷ mask) h = rw (mark-end i mask (omega arith)) refl

pub first_free-below : (mask : Bytes) (j : ℕ) → j < first_free mask → get_elem? mask j ≢ some b'0'
unfolding first_free
first_free-below [] j h = absurd (omega arith)
first_free-below (c ∷ mask) zero h = ground arith
first_free-below (c ∷ mask) (suc j) h = ground (arith, first_free-below mask j)

pub zeros-free : (n j : ℕ) → j < n → get_elem? (zeros n) j ≡ some b'0'
unfolding zeros
zeros-free zero j h = absurd (omega arith)
zeros-free (suc n) zero h = refl
zeros-free (suc n) (suc j) h = zeros-free n j (omega arith)

pub length-zeros : (n : ℕ) → length (zeros n) ≡ n
unfolding zeros
length-zeros zero = refl
length-zeros (suc n) = omega (arith, length-zeros n)
