-- ===== src/Examples/Tc.antt =====
-- Examples of the tc helper: a shell that keeps the devices that have a queue, and the commands run.
use my_cni.Prelude.{
  ◌≡◌, refl, ap, ◌∙◌, Bool, true, false, List, [], ◌∷◌, Option, none, if◌then◌else◌,
}
use my_cni.Text.{Bytes, codes}
use my_cni.Exec.{ok, Error}
use my_cni.Tc.{
  Shell, starts_with, Direction, ingress, egress, other, has_text, show_command, filter_command,
  runs, exist_clsact, add_clsact, attach_bpf_to_device,
}
use my_cni.Tc.Attach.{IsLawful, attach_again}

-- Whether the devices have the queue, all at once, and the commands, the last one first.
pub record State : Type 0 where
  pub queue : Bool
  pub commands : List Bytes

abbrev pub reply : Bool → Bytes
reply true = codes "qdisc clsact ffff:"
reply false = []

abbrev pub logged : Bytes → State → State
logged c s = record s { commands = c ∷ s.commands }

abbrev pub answer : Bytes → State → (Bytes × Option Error) × State
answer c s =
    if starts_with (codes "tc qdisc show") c
    then ((reply s.queue, none), logged c s)
    else if starts_with (codes "tc qdisc add") c
    then (([], none), record (logged c s) { queue = true })
    else (([], none), logged c s)

abbrev shell : Shell
shell = record { State = State; output = answer }

reply_queue : (b : Bool) → b ≡ true → has_text (codes "clsact") (reply b) ≡ true
unfolding has_text
reply_queue true e = refl
reply_queue false e = cc

queue_reply : (b : Bool) → has_text (codes "clsact") (reply b) ≡ true → b ≡ true
unfolding has_text
queue_reply true e = refl
queue_reply false e = cc

filter_logs :
    (s : State) (d prog : Bytes) (dir : Direction)
    → (answer (filter_command d prog dir) s).1 ≡ logged (filter_command d prog dir) s
filter_logs s d prog ingress = refl
filter_logs s d prog egress = refl
filter_logs s d prog other = refl

shell-IsLawful : IsLawful shell
shell-IsLawful = record {
  HasQueue = λ s d. s.queue ≡ true;
  shown_text = λ s d h. reply_queue s.queue h;
  shown_has = λ s d h. queue_reply s.queue h;
  add_has = λ s d h. refl;
  filter_keeps = λ s d prog dir h. ap (λ (t : State). t.queue) (filter_logs s d prog dir) ∙ h;
}

abbrev dev : Bytes
dev = codes "e"

abbrev prog : Bytes
prog = codes "p"

abbrev start : State
start = record { queue = false; commands = [] }

attaches : (attach_bpf_to_device shell dev prog ingress start).0 ≡ ok tt
unfolding attach_bpf_to_device exist_clsact add_clsact has_text
attaches = refl

attach_again_example :
    attach_bpf_to_device shell dev prog ingress
      (attach_bpf_to_device shell dev prog ingress start).1
    ≡ runs shell
        (filter_command dev prog ingress)
        (shell.output (show_command dev) (attach_bpf_to_device shell dev prog ingress start).1).1
attach_again_example = attach_again shell-IsLawful dev prog ingress start attaches
