-- ===== src/Exec/Laws.antt =====
-- Sequences of actions may be bracketed either way.
use my_cni.Prelude.{◌≡◌, refl, fun_ext}
use my_cni.Exec.{Exec, Result, ok, err, panic, hang, continue, ◌>>=◌}

module _ {S A B C : Type 0} where
  continue_assoc :
      (f : A → Exec S B) (g : B → Exec S C) (r : Result A) (s : S)
      → continue g (continue f (r, s)) ≡ continue (λ a. f a >>= g) (r, s)
  continue_assoc f g (ok a) s = refl
  continue_assoc f g (err e) s = refl
  continue_assoc f g panic s = refl
  continue_assoc f g hang s = refl

  pub bind_assoc :
      (m : Exec S A) (f : A → Exec S B) (g : B → Exec S C)
      → ((m >>= f) >>= g) ≡ (m >>= λ a. f a >>= g)
  bind_assoc m f g = fun_ext (λ s. continue_assoc f g (m s).0 (m s).1)
