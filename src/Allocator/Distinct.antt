-- ===== src/Allocator/Distinct.antt =====
-- Lists of addresses: membership, and that no text but the empty one stands twice.
use my_cni.Prelude.{◌≡◌, ◌≢◌, sym, ◌⊎◌, inl, inr, List, [], ◌∷◌, ◌++◌}
use my_cni.Text.{Bytes}

abbrev pub In : Bytes → List Bytes → Type 0
In x [] = ⊥
In x (y ∷ ys) = (x ≡ y) ⊎ In x ys

-- No text but the empty one stands twice.
abbrev pub Distinct : List Bytes → Type 0
Distinct [] = Unit
Distinct (y ∷ ys) = (y ≢ [] → ¬ (In y ys)) × Distinct ys

pub In-append : (x : Bytes) (xs : List Bytes) (w : Bytes) → In x (xs ++ w ∷ []) → In x xs ⊎ (x ≡ w)
In-append x [] w (inl e) = inr e
In-append x [] w (inr e) = absurd e
In-append x (y ∷ xs) w (inl e) = inl (inl e)
In-append x (y ∷ xs) w (inr h) = elim (In-append x xs w h) [ inl k ↦ inl (inr k) | inr k ↦ inr k ]

pub Distinct-append :
    (xs : List Bytes) (w : Bytes) → Distinct xs → ¬ (In w xs) → Distinct (xs ++ w ∷ [])
Distinct-append [] w d h = (λ _ f. f, tt)
Distinct-append (x ∷ xs) w (fresh, d) h = (
  (λ filled i. elim (In-append x xs w i) [ inl k ↦ fresh filled k | inr k ↦ h (inl (sym k)) ]),
  Distinct-append xs w d (λ k. h (inr k)),
)

pub append-ne-nil : (xs : List Bytes) (w : Bytes) → xs ++ w ∷ [] ≢ []
append-ne-nil [] w e = cc
append-ne-nil (x ∷ xs) w e = cc
