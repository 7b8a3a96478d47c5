-- ===== src/Tc/Attach.antt =====
-- A program is attached anew without a second queue.
use my_cni.Prelude.{
  ◌≡◌, sym, ◌∙◌, subst, true, false, none, some, inl, inr, Bool-cases, Option-cases,
}
use my_cni.Text.{Bytes, codes}
use my_cni.Exec.{Error, Result, ok, err}
use my_cni.Tc.{
  Shell, Direction, has_text, show_command, add_command, filter_command, runs, exist_clsact,
  add_clsact, attach_bpf_to_device,
}

-- What `tc` documents of the queue "clsact" of a device: it is shown while it is there, it is there
-- after it was shown or added, and a filter command leaves it there.
pub record IsLawful (S : Shell) : Type 1 where
  pub HasQueue : S.State → Bytes → Type 0
  pub shown_text :
      (s : S.State) (d : Bytes)
      → HasQueue s d
      → has_text (codes "clsact") (S.output (show_command d) s).0.0 ≡ true
  pub shown_has :
      (s : S.State) (d : Bytes)
      → has_text (codes "clsact") (S.output (show_command d) s).0.0 ≡ true
      → HasQueue (S.output (show_command d) s).1 d
  pub add_has :
      (s : S.State) (d : Bytes)
      → (S.output (add_command d) s).0.1 ≡ none
      → HasQueue (S.output (add_command d) s).1 d
  pub filter_keeps :
      (s : S.State) (d prog : Bytes) (dir : Direction)
      → HasQueue s d
      → HasQueue (S.output (filter_command d prog dir) s).1 d

module _ {S : Shell} (L : IsLawful S) where
  runs-state : (c : Bytes) (s : S.State) → (runs S c s).1 ≡ (S.output c s).1
  runs-state c s = elim (Option-cases (S.output c s).0.1) [ inl e ↦ rw e | inr (x, e) ↦ rw e ]

  module _ (d prog : Bytes) (dir : Direction) where
    filter_has :
        (s : S.State) → L.HasQueue s d → L.HasQueue (runs S (filter_command d prog dir) s).1 d
    filter_has s h =
        subst (λ t. L.HasQueue t d) (sym (runs-state (filter_command d prog dir) s))
          (L.filter_keeps s d prog dir h)

    abbrev looked : S.State → S.State
    looked s = (S.output (show_command d) s).1

    -- With the queue, the command that attaches is all that is left.
    with_queue :
        (s : S.State)
        → has_text (codes "clsact") (S.output (show_command d) s).0.0 ≡ true
        → attach_bpf_to_device S d prog dir s ≡ runs S (filter_command d prog dir) (looked s)
    unfolding attach_bpf_to_device exist_clsact
    with_queue s e = rw e

    without_queue :
        (s : S.State)
        → has_text (codes "clsact") (S.output (show_command d) s).0.0 ≡ false
        → (S.output (add_command d) (looked s)).0.1 ≡ none
        → attach_bpf_to_device S d prog dir s
          ≡ runs S (filter_command d prog dir) (S.output (add_command d) (looked s)).1
    unfolding attach_bpf_to_device exist_clsact add_clsact
    without_queue s e n = rw (e, n)

    no_queue :
        (s : S.State) (x : Error)
        → has_text (codes "clsact") (S.output (show_command d) s).0.0 ≡ false
        → (S.output (add_command d) (looked s)).0.1 ≡ some x
        → (attach_bpf_to_device S d prog dir s).0 ≡ err x
    unfolding attach_bpf_to_device exist_clsact add_clsact
    no_queue s x e n = rw (e, n)

    attached_has :
        (s : S.State)
        → (attach_bpf_to_device S d prog dir s).0 ≡ ok tt
        → L.HasQueue (attach_bpf_to_device S d prog dir s).1 d
    attached_has s o =
        elim (Bool-cases (has_text (codes "clsact") (S.output (show_command d) s).0.0)) [
          | inl e ↦ rw (with_queue s e) (filter_has (looked s) (L.shown_has s d e))
          | inr e ↦ elim (Option-cases (S.output (add_command d) (looked s)).0.1) [
            | inl n ↦ rw (without_queue s e n) (filter_has _ (L.add_has (looked s) d n))
            | inr (x, n) ↦ absurd (ok_err (sym o ∙ no_queue s x e n))
          ]
        ]
      where
        ok_err : {x : Error} → ¬ (◌≡◌ {A = Result (Unit {0})} (ok tt) (err x))
        ok_err e = cc

    -- After a program was attached, attaching one again shows the queue and runs the filter command,
    -- and adds no second queue.
    pub attach_again :
        (s : S.State)
        → (attach_bpf_to_device S d prog dir s).0 ≡ ok tt
        → attach_bpf_to_device S d prog dir (attach_bpf_to_device S d prog dir s).1
          ≡ runs S
              (filter_command d prog dir)
              (S.output (show_command d) (attach_bpf_to_device S d prog dir s).1).1
    attach_again s o =
        with_queue (attach_bpf_to_device S d prog dir s).1
          (L.shown_text (attach_bpf_to_device S d prog dir s).1 d (attached_has s o))
