-- ===== src/Exec/Keeps.antt =====
-- What actions leave alone: a view of the state that each part of an action keeps is kept by the
-- whole, with one rule for each way to build an action.
use my_cni.Prelude.{
  subst, sym, ◌≢◌, ap, ◌≡◌, refl, ◌∙◌, Bool, true, false, Option, none, some, if◌then◌else◌,
}
use Prim.Native.String.{String}
use my_cni.Exec.{
  Exec, Error, Result, ok, err, panic, hang, pure, raise, crash, lift, from_option, rescue, wrap,
  ignore, deferring, continue, handle, settle, finish, close, ◌>>=◌, ◌>>◌,
}

-- Whatever `m` returns, the view is what it was.
pub record Keeps {S A V : Type 0} (view : S → V) (m : Exec S A) : Type 0 where
  pub at : (s : S) → view (m s).1 ≡ view s

settle-state : {S A : Type 0} (r : Result A) (s : S) → (settle (r, s)).1 ≡ s
settle-state (ok a) s = refl
settle-state (err e) s = refl
settle-state panic s = refl
settle-state hang s = refl

close-state : {S A B : Type 0} (r : Result A) (q : Result B × S) → (close r q).1 ≡ q.1
close-state r (ok b, s) = refl
close-state r (err e, s) = refl
close-state r (panic, s) = refl
close-state r (hang, s) = refl

-- The deferred call is the last.
pub finish-state :
    {S A B : Type 0} (d : Exec S B) (r : Result A) (s : S)
    → r ≢ hang
    → (finish d (r, s)).1 ≡ (d s).1
finish-state d (ok a) s n = close-state (ok a) (d s)
finish-state d (err e) s n = close-state (err e) (d s)
finish-state d panic s n = close-state panic (d s)
finish-state d hang s n = absurd (n refl)

module _ {S A V : Type 0} {view : S → V} where
  pub Keeps-pure : (a : A) → Keeps view (pure {S = S} a)
  Keeps-pure a = record { at = λ s. refl }

  pub Keeps-raise : (e : Error) → Keeps view (raise {S = S} {A = A} e)
  Keeps-raise e = record { at = λ s. refl }

  pub Keeps-crash : Keeps view (crash {S = S} {A = A})
  Keeps-crash = record { at = λ s. refl }

  pub Keeps-lift : (r : Result A) → Keeps view (lift {S = S} r)
  Keeps-lift r = record { at = λ s. refl }

  pub Keeps-from_option : (e : Error) (o : Option A) → Keeps view (from_option {S = S} e o)
  Keeps-from_option e none = Keeps-raise e
  Keeps-from_option e (some a) = Keeps-pure a

  pub Keeps-if :
      (b : Bool) (m n : Exec S A) → Keeps view m → Keeps view n → Keeps view (if b then m else n)
  Keeps-if true m n km kn = km
  Keeps-if false m n km kn = kn

  handled :
      (h : Error → Exec S A) (r : Result A) (s : S)
      → ((e : Error) → Keeps view (h e))
      → view (handle h (r, s)).1 ≡ view s
  handled h (ok a) s k = refl
  handled h (err e) s k = (k e).at s
  handled h panic s k = refl
  handled h hang s k = refl

  pub Keeps-rescue :
      (m : Exec S A) (h : Error → Exec S A)
      → Keeps view m
      → ((e : Error) → Keeps view (h e))
      → Keeps view (rescue m h)
  Keeps-rescue m h km kh = record { at = λ s. handled h (m s).0 (m s).1 kh ∙ km.at s }

  pub Keeps-wrap : (text : String) (m : Exec S A) → Keeps view m → Keeps view (wrap text m)
  Keeps-wrap text m km = Keeps-rescue m _ km (λ e. Keeps-raise _)

  pub Keeps-ignore : (m : Exec S A) → Keeps view m → Keeps view (ignore m)
  Keeps-ignore m km = record { at = λ s. ap view (settle-state (m s).0 (m s).1) ∙ km.at s }

module _ {S A B V : Type 0} {view : S → V} where
  continued :
      (f : A → Exec S B) (r : Result A) (s : S)
      → ((a : A) → Keeps view (f a))
      → view (continue f (r, s)).1 ≡ view s
  continued f (ok a) s k = (k a).at s
  continued f (err e) s k = refl
  continued f panic s k = refl
  continued f hang s k = refl

  pub Keeps-bind :
      (m : Exec S A) (f : A → Exec S B)
      → Keeps view m
      → ((a : A) → Keeps view (f a))
      → Keeps view (m >>= f)
  Keeps-bind m f km kf = record { at = λ s. continued f (m s).0 (m s).1 kf ∙ km.at s }

  pub Keeps-then : (m : Exec S A) (n : Exec S B) → Keeps view m → Keeps view n → Keeps view (m >> n)
  Keeps-then m n km kn = Keeps-bind m _ km (λ _. kn)

  pub finish-Keeps :
      (d : Exec S B) (r : Result A) (s : S) → Keeps view d → view (finish d (r, s)).1 ≡ view s
  finish-Keeps d (ok a) s k = ap view (close-state (ok a) (d s)) ∙ k.at s
  finish-Keeps d (err e) s k = ap view (close-state (err e) (d s)) ∙ k.at s
  finish-Keeps d panic s k = ap view (close-state panic (d s)) ∙ k.at s
  finish-Keeps d hang s k = refl

  pub Keeps-deferring :
      (d : Exec S B) (m : Exec S A) → Keeps view d → Keeps view m → Keeps view (deferring d m)
  Keeps-deferring d m kd km = record { at = λ s. finish-Keeps d (m s).0 (m s).1 kd ∙ km.at s }

-- The view is kept where `P` holds of it.
pub record KeepsWhere {S A V : Type 0} (view : S → V) (P : V → Type 0) (m : Exec S A) : Type 0 where
  pub at : (s : S) → P (view s) → view (m s).1 ≡ view s

module _ {S A V : Type 0} {view : S → V} {P : V → Type 0} where
  pub KeepsWhere-all : (m : Exec S A) → Keeps view m → KeepsWhere view P m
  KeepsWhere-all m k = record { at = λ s p. k.at s }

module _ {S A B V : Type 0} {view : S → V} {P : V → Type 0} where
  continued_where :
      (f : A → Exec S B) (r : Result A) (s : S)
      → P (view s)
      → ((a : A) → KeepsWhere view P (f a))
      → view (continue f (r, s)).1 ≡ view s
  continued_where f (ok a) s p k = (k a).at s p
  continued_where f (err e) s p k = refl
  continued_where f panic s p k = refl
  continued_where f hang s p k = refl

  pub KeepsWhere-bind :
      (m : Exec S A) (f : A → Exec S B)
      → KeepsWhere view P m
      → ((a : A) → KeepsWhere view P (f a))
      → KeepsWhere view P (m >>= f)
  KeepsWhere-bind m f km kf = record {
    at = λ s p. continued_where f (m s).0 (m s).1 (subst P (sym (km.at s p)) p) kf ∙ km.at s p;
  }

pub ruleset keeps_rules = (
  Keeps-pure, Keeps-raise, Keeps-crash, Keeps-lift, Keeps-from_option, Keeps-if, Keeps-rescue,
  Keeps-wrap, Keeps-ignore, Keeps-bind, Keeps-then, Keeps-deferring,
)
