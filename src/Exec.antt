-- ===== src/Exec.antt =====
-- Go functions that return an error, may panic and act on a state: the state comes back beside the
-- error too, since what was written before it stays written.
pub mod Keeps
pub mod Laws
use my_cni.Prelude.{Option, none, some}
use Prim.Native.String.{String}

-- The program's own error values, and errors that `fmt.Errorf` makes, with the error that they cite.
pub data Error : Type 0 where
  link_not_found ip_overflow mask_exists mask_update_failed mask_get_failed subnet_file_missing :
      Error
  not_exist already_exist : Error
  message : String → Error
  caused : String → Error → Error

pub data Result {ℓ} (A : Type ℓ) : Type ℓ where
  ok : A → Result A
  err : Error → Result A
  panic : Result A
  -- A loop that does not end.
  hang : Result A

abbrev pub Exec {ℓ} : Type ℓ → Type ℓ → Type ℓ
Exec S A = S → Result A × S

module _ {ℓ} {S A : Type ℓ} where
  abbrev pub pure : A → Exec S A
  pure a s = (ok a, s)

  abbrev pub raise : Error → Exec S A
  raise e s = (err e, s)

  -- An index out of range, or a nil pointer.
  abbrev pub crash : Exec S A
  crash s = (panic, s)

  abbrev pub lift : Result A → Exec S A
  lift r s = (r, s)

  abbrev pub from_option : Error → Option A → Exec S A
  from_option e none = raise e
  from_option e (some a) = pure a

  abbrev pub handle : (Error → Exec S A) → Result A × S → Result A × S
  handle h (ok a, s) = (ok a, s)
  handle h (err e, s) = h e s
  handle h (panic, s) = (panic, s)
  handle h (hang, s) = (hang, s)

  -- `if err != nil { h }` behind the call `m`.
  abbrev pub rescue : Exec S A → (Error → Exec S A) → Exec S A
  rescue m h s = handle h (m s)

  -- `return fmt.Errorf(text, err)` on the error of `m`.
  abbrev pub wrap : String → Exec S A → Exec S A
  wrap text m = rescue m (λ e. raise (caused text e))

  abbrev settle : Result A × S → Result (Option A) × S
  settle (ok a, s) = (ok (some a), s)
  settle (err e, s) = (ok none, s)
  settle (panic, s) = (panic, s)
  settle (hang, s) = (hang, s)

  -- `a, _ := m`: an error is dropped.
  abbrev pub ignore : Exec S A → Exec S (Option A)
  ignore m s = settle (m s)

module _ {ℓ} {S A B : Type ℓ} where
  abbrev pub continue : (A → Exec S B) → Result A × S → Result B × S
  continue f (ok a, s) = f a s
  continue f (err e, s) = (err e, s)
  continue f (panic, s) = (panic, s)
  continue f (hang, s) = (hang, s)

  infixl 10 ◌>>=◌ ◌>>◌
  abbrev pub ◌>>=◌ : Exec S A → (A → Exec S B) → Exec S B
  ◌>>=◌ m f s = continue f (m s)

  abbrev pub ◌>>◌ : Exec S A → Exec S B → Exec S B
  m >> n = m >>= λ _. n

  -- A panic of the deferred call takes the place of the result.
  abbrev close : Result A → Result B × S → Result A × S
  close r (ok b, s) = (r, s)
  close r (err e, s) = (r, s)
  close r (panic, s) = (panic, s)
  close r (hang, s) = (hang, s)

  abbrev pub finish : Exec S B → Result A × S → Result A × S
  finish d (hang, s) = (hang, s)
  finish d (r, s) = close r (d s)

  -- `defer d` in front of `m`: `d` runs on every way out, and its error is dropped.
  abbrev pub deferring : Exec S B → Exec S A → Exec S A
  deferring d m s = finish d (m s)
