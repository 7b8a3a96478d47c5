-- ===== src/Text/Equal.antt =====
-- The equality test of strings decides equality, and sees through a common prefix.
use my_cni.Prelude.{ℕ, ◌≡◌, ◌≢◌, refl, ◌↔◌, true, false, [], ◌∷◌, ◌++◌, arith, Bool-cases, inl, inr}
use my_cni.Text.{Bytes, same, Lacks}

pub same-eq : (s t : Bytes) → same s t ≡ true → s ≡ t
unfolding same
same-eq [] [] h = refl
same-eq [] (b ∷ t) h = cc
same-eq (a ∷ s) [] h = cc
same-eq (a ∷ s) (b ∷ t) h = ground (arith, same-eq s t)

pub same_refl : (s : Bytes) → same s s ≡ true
unfolding same
same_refl [] = refl
same_refl (a ∷ s) = ground (arith, same_refl s)

pub same_iff : (s t : Bytes) → (same s t ≡ true) ↔ (s ≡ t)
same_iff s t = (same-eq s t, λ e. subst_same e)
  where
    subst_same : s ≡ t → same s t ≡ true
    subst_same e = cc (same_refl s, e)

pub same_ne : (s t : Bytes) → s ≢ t → same s t ≡ false
same_ne s t h = elim (Bool-cases (same s t)) [ inl e ↦ absurd (h (same-eq s t e)) | inr e ↦ e ]

pub same_comm : (s t : Bytes) → same s t ≡ same t s
unfolding same
same_comm [] [] = refl
same_comm [] (b ∷ t) = refl
same_comm (a ∷ s) [] = refl
same_comm (a ∷ s) (b ∷ t) = ground (arith, same_comm s t)

pub same-append : (p s t : Bytes) → same (p ++ s) (p ++ t) ≡ same s t
unfolding same
same-append [] s t = refl
same-append (a ∷ p) s t = ground (arith, same-append p s t)

-- A byte that a text holds is not lacking in it.
pub Lacks-append-cons : (b : ℕ) (s t : Bytes) → ¬ (Lacks b (s ++ b ∷ t))
Lacks-append-cons b [] t h = h.0 refl
Lacks-append-cons b (a ∷ s) t h = Lacks-append-cons b s t h.1
