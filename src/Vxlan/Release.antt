-- ===== src/Vxlan/Release.antt =====
-- What becomes of the address that a pod was given: it is given back on every way out of `cmdAdd`.
use my_cni.Prelude.{◌≡◌, ◌≢◌, ◌∙◌, ap, subst, sym, false, [], if◌then◌else◌}
use my_cni.Text.{Bytes, same}
use my_cni.Net.{Notation6}
use my_cni.Exec.{Exec, Error, Result, ok, err, panic, hang, finish, continue, deferring, ◌>>=◌}
use my_cni.Exec.Keeps.{finish-state}
use my_cni.Kernel.{World}
use my_cni.Kernel.Untouched.{Untouched, MapsUntouched}
use my_cni.Ifaces.{exec_add, exec_del}
use my_cni.Vxlan.{NetConf, K8sEnvArgs, load_net_conf}
use my_cni.Vxlan.Plugin.{CmdArgs, no_addresses, setup_pod, with_addresses, cmd_add}
use my_cni.Vxlan.Untouched.{with_addresses-Keeps}

finish-hang :
    {S A B : Type 0} (d : Exec S B) (r : Result A) (s : S) → (finish d (r, s)).0 ≢ hang → r ≢ hang
finish-hang d r s n e = n (ap (λ x. (finish d (x, s)).0) e)

module _ {W : World} ⦃n6 : Notation6⦄ (unmarshal : Bytes → Result NetConf)
    (load_args : Bytes → Result K8sEnvArgs) (U : Untouched W) (M : MapsUntouched U) (args : CmdArgs)
    (n : NetConf) (r : W.Reply) (s given : W.bpf.State)
    (loads : load_net_conf unmarshal load_args args.stdin_data args.args ≡ ok n)
    (layer3 : same n.ipam_type [] ≡ false)
    (gives : exec_add W n.ipam_type args.stdin_data s ≡ (ok r, given)) where
  -- The host when the deferred deletion starts.
  abbrev pub before_del : W.bpf.State
  before_del = (with_addresses W args n.cni_version r given).1

  to_deferred :
      cmd_add W unmarshal load_args args s
      ≡ finish
          (exec_del W n.ipam_type args.stdin_data)
          (with_addresses W args n.cni_version r given)
  unfolding cmd_add
  to_deferred = rw (loads, layer3, gives)

  -- Once the address plugin has given a reply, a command that ends leaves the host as the deletion of
  -- the address leaves it, also when the command succeeds; and the deletion starts with the addresses
  -- that the address plugin had given out, since nothing in between changes those.
  pub cmd_add-releases :
      (cmd_add W unmarshal load_args args s).0 ≢ hang
      → ((cmd_add W unmarshal load_args args s).1
          ≡ (exec_del W n.ipam_type args.stdin_data before_del).1)
        × (U.view before_del ≡ U.view given)
  cmd_add-releases ends = (
    ap (λ q. q.1) to_deferred
        ∙ finish-state (exec_del W n.ipam_type args.stdin_data) _ _
            (finish-hang _ _ _ (subst (λ q. q.0 ≢ hang) to_deferred ends)),
    (with_addresses-Keeps U M args n.cni_version r).at given,
  )

err_ok : {A : Type 0} {x : Error} {a : A} → ¬ (err x ≡ ok a)
err_ok i = cc

panic_ok : {A : Type 0} {a : A} → ¬ (panic ≡ ok a)
panic_ok i = cc

hang_ok : {A : Type 0} {a : A} → ¬ (hang ≡ ok a)
hang_ok i = cc

-- What CNI asks of an address plugin, on the host `s`: an addition that fails gives out no address, and a
-- deletion takes back what the addition with the same configuration gave out.
pub record GivesBack (W : World) (U : Untouched W) (config : Bytes) (s : W.bpf.State) : Type 0 where
  pub refuses :
      (plugin : Bytes)
      → ((r : W.Reply) → (exec_add W plugin config s).0 ≢ ok r)
      → U.view (exec_add W plugin config s).1 ≡ U.view s
  pub undoes :
      (plugin : Bytes) (r : W.Reply) (t u : W.bpf.State)
      → exec_add W plugin config s ≡ (ok r, t)
      → U.view u ≡ U.view t
      → U.view (exec_del W plugin config u).1 ≡ U.view s

module _ {W : World} ⦃n6 : Notation6⦄ (unmarshal : Bytes → Result NetConf)
    (load_args : Bytes → Result K8sEnvArgs) (U : Untouched W) (M : MapsUntouched U) (args : CmdArgs)
    (s : W.bpf.State) (G : GivesBack W U args.stdin_data s) where
  -- What `cmdAdd` does behind its configuration.
  abbrev run_conf : NetConf → Exec W.bpf.State (Unit {0})
  run_conf n =
      if same n.ipam_type []
      then setup_pod W args n.cni_version no_addresses
      else exec_add W n.ipam_type args.stdin_data >>= λ r.
          deferring (exec_del W n.ipam_type args.stdin_data) (with_addresses W args n.cni_version r)

  abbrev behind : NetConf → Result (Unit {0}) × W.bpf.State
  behind n = run_conf n s

  released :
      (n : NetConf) (q : Result W.Reply × W.bpf.State)
      → exec_add W n.ipam_type args.stdin_data s ≡ q
      → (continue
          (λ r.
            deferring
              (exec_del W n.ipam_type args.stdin_data)
              (with_addresses W args n.cni_version r))
          q).0
        ≢ hang
      → U.view
          (continue
            (λ r.
              deferring
                (exec_del W n.ipam_type args.stdin_data)
                (with_addresses W args n.cni_version r))
            q).1
        ≡ U.view s
  released n (ok r, t) e ends =
      ap U.view (finish-state (exec_del W n.ipam_type args.stdin_data) _ _ (finish-hang _ _ _ ends))
      ∙ G.undoes n.ipam_type r t (with_addresses W args n.cni_version r t).1 e
          ((with_addresses-Keeps U M args n.cni_version r).at t)
  released n (err x, t) e ends =
      ap (λ q. U.view q.1) (sym e)
      ∙ G.refuses n.ipam_type (λ r i. err_ok (sym (ap (λ q. q.0) e) ∙ i))
  released n (panic, t) e ends =
      ap (λ q. U.view q.1) (sym e)
      ∙ G.refuses n.ipam_type (λ r i. panic_ok (sym (ap (λ q. q.0) e) ∙ i))
  released n (hang, t) e ends =
      ap (λ q. U.view q.1) (sym e)
      ∙ G.refuses n.ipam_type (λ r i. hang_ok (sym (ap (λ q. q.0) e) ∙ i))
