-- ===== src/Text/Split.antt =====
-- `Split` and `Join` undo each other.
use my_cni.Prelude.{
  ℕ, ◌≡◌, ◌≢◌, refl, ◌++◌, List, [], ◌∷◌, arith, All, Bool-cases, inl, inr, ◌==◌, ◌∙◌,
}
use my_cni.Text.{Bytes, split, join, extend, Lacks}

module _ (sep : ℕ) where
  pub split-ne-nil : (s : Bytes) → split sep s ≢ []
  unfolding split
  split-ne-nil [] h = cc
  split-ne-nil (c ∷ s) h = ground (arith, split-ne-nil s)

  join-extend : (c : ℕ) (ps : List Bytes) → join sep (extend c ps) ≡ c ∷ join sep ps
  unfolding join
  join-extend c [] = refl
  join-extend c (p ∷ []) = refl
  join-extend c (p ∷ q ∷ qs) = refl

  join-nil_cons : (ps : List Bytes) → ps ≢ [] → join sep ([] ∷ ps) ≡ sep ∷ join sep ps
  unfolding join
  join-nil_cons [] h = absurd (h refl)
  join-nil_cons (p ∷ ps) h = refl

  pub join-split : (s : Bytes) → join sep (split sep s) ≡ s
  unfolding split
  join-split [] = unfold join in refl
  join-split (c ∷ s) = ground (
    arith,
    join-split s,
    join-extend c (split sep s),
    join-nil_cons (split sep s) (split-ne-nil s),
  )

  extend-Lacks :
      (c : ℕ) (ps : List Bytes) → c ≢ sep → All (Lacks sep) ps → All (Lacks sep) (extend c ps)
  extend-Lacks c [] h hs = ((h, tt), tt)
  extend-Lacks c (p ∷ ps) h (hp, hs) = ((h, hp), hs)

  pub split-Lacks : (s : Bytes) → All (Lacks sep) (split sep s)
  unfolding split
  split-Lacks [] = (tt, tt)
  split-Lacks (c ∷ s) = elim (Bool-cases (c == sep)) [
    | inl e ↦ rw e (tt, split-Lacks s)
    | inr e ↦ rw e (extend-Lacks c (split sep s) (ground arith) (split-Lacks s))
  ]

  pub split_single : (p : Bytes) → Lacks sep p → split sep p ≡ p ∷ []
  unfolding split
  split_single [] h = refl
  split_single (c ∷ p) (hc, h) = ground (arith, split_single p h)

  pub split-append : (p s : Bytes) → Lacks sep p → split sep (p ++ sep ∷ s) ≡ p ∷ split sep s
  unfolding split
  split-append [] s h = ground arith
  split-append (c ∷ p) s (hc, h) = ground (arith, split-append p s h)

  pub split-join : (ps : List Bytes) → ps ≢ [] → All (Lacks sep) ps → split sep (join sep ps) ≡ ps
  unfolding join
  split-join [] h _ = absurd (h refl)
  split-join (p ∷ []) h (hp, _) = split_single p hp
  split-join (p ∷ q ∷ qs) h (hp, hs) =
      split-append p (join sep (q ∷ qs)) hp ∙ ap_cons (split-join (q ∷ qs) (λ e. cc) hs)
    where
      ap_cons : {ls ms : List Bytes} → ls ≡ ms → p ∷ ls ≡ p ∷ ms
      ap_cons e = cc
