-- ===== src/Noded/Config.antt =====
-- With which configuration the daemon of a node ends well.
use my_cni.Prelude.{
  ℕ, ◌≡◌, ◌≢◌, refl, Bool, true, false, not, ◌&&◌, Option, none, some, [], if◌then◌else◌,
  Bool-cases, Option-cases, inl, inr,
}
use my_cni.Text.{Bytes, same}
use my_cni.Net.{Ip, IpNet, Notation6, parse_cidr}
use my_cni.Exec.{Error, message, caused, Result, ok, err, panic, hang}
use my_cni.Noded.{DaemonConf, Cluster, parse_config, run_controller, made, or_die, code_of, notmain}

abbrev pub is_read : Option (Ip × IpNet) → Bool
is_read none = false
is_read (some net) = true

-- The range of addresses can be read, and the flag or the environment names the node.
abbrev pub is_complete : ⦃n6 : Notation6⦄ → Bytes → DaemonConf → Bool
is_complete env conf =
    is_read (parse_cidr conf.pod_cidr) && not (same conf.node_name [] && same env [])

-- The code of a process that can make its configuration, or cannot.
abbrev pub code_when : Bool → Option ℕ
code_when b = some (if b then 0 else 1)

module _ (C : Cluster) ⦃n6 : Notation6⦄ where
  -- A call that neither panics nor hangs.
  abbrev pub Ends : {A : Type 0} → Result A → Type 0
  Ends r = (r ≢ panic) × (r ≢ hang)

  abbrev pub is_loaded : {A : Type 0} → Result A → Bool
  is_loaded (ok a) = true
  is_loaded r = false

  made_lem : (q : Result (Unit {0}) × C.State) → Ends q.0 → (code_of C (made C q)).0 ≡ some 0
  made_lem (ok u, s) h = refl
  made_lem (err e, s) h = refl
  made_lem (panic, s) h = absurd (h.0 refl)
  made_lem (hang, s) h = absurd (h.1 refl)

  or_die_lem :
      (q : Result C.Config × C.State)
      → Ends q.0
      → ((config : C.Config) (t : C.State) → Ends (C.new_manager config t).0)
      → (code_of C (or_die C q)).0 ≡ code_when (is_loaded q.0)
  or_die_lem (ok config, s) h m = made_lem (C.new_manager config s) (m config s)
  or_die_lem (err e, s) h m = refl
  or_die_lem (panic, s) h m = absurd (h.0 refl)
  or_die_lem (hang, s) h m = absurd (h.1 refl)

  module _ (env : Bytes) (conf : DaemonConf) (s : C.State) (loads : Ends (C.get_config s).0)
      (manages : (config : C.Config) (t : C.State) → Ends (C.new_manager config t).0) where
    -- How a parsed configuration decides the exit code.
    refused : {e : Error} → parse_config env conf ≡ err e → (notmain C env conf s).0 ≡ some 1
    unfolding notmain
    refused e = rw e refl

    accepted :
        (named : DaemonConf)
        → parse_config env conf ≡ ok named
        → (notmain C env conf s).0 ≡ code_when (is_loaded (C.get_config s).0)
    unfolding notmain run_controller
    accepted named e = rw e (or_die_lem (C.get_config s) loads manages)

    unreadable :
        parse_cidr conf.pod_cidr ≡ none
        → parse_config env conf
          ≡ err (caused "Pod CIDR is invaild: %v" (message "invalid CIDR address"))
    unfolding parse_config
    unreadable e = rw (e, parse_config) refl

    by_flag :
        (net : Ip × IpNet)
        → parse_cidr conf.pod_cidr ≡ some net
        → same conf.node_name [] ≡ false
        → parse_config env conf ≡ ok conf
    unfolding parse_config
    by_flag net e named = rw (e, parse_config, named, named) refl

    by_env :
        (net : Ip × IpNet)
        → parse_cidr conf.pod_cidr ≡ some net
        → same conf.node_name [] ≡ true
        → same env [] ≡ false
        → parse_config env conf ≡ ok (record conf { node_name = env })
    unfolding parse_config
    by_env net e unnamed given = rw (e, parse_config, unnamed, given) refl

    by_nothing :
        (net : Ip × IpNet)
        → parse_cidr conf.pod_cidr ≡ some net
        → same conf.node_name [] ≡ true
        → same env [] ≡ true
        → parse_config env conf ≡ err (message "node name is empty")
    unfolding parse_config
    by_nothing net e unnamed empty = rw (e, parse_config, unnamed, empty) refl

    readable :
        (net : Ip × IpNet)
        → parse_cidr conf.pod_cidr ≡ some net
        → (notmain C env conf s).0
          ≡ code_when (is_complete env conf && is_loaded (C.get_config s).0)
    readable net e = elim (Bool-cases (same conf.node_name [])) [
      | inr named ↦ rw (e, named) (accepted conf (by_flag net e named))
      | inl unnamed ↦ elim (Bool-cases (same env [])) [
        | inl empty ↦ rw (e, unnamed, empty) (refused (by_nothing net e unnamed empty))
        | inr given ↦
            rw (e, unnamed, given)
              (accepted (record conf { node_name = env }) (by_env net e unnamed given))
      ]
    ]

    -- Where loading the cluster's configuration and making a manager neither panic nor hang, the
    -- daemon exits with 0 exactly if the range of addresses can be read, the flag or the environment
    -- names the node, and the cluster's configuration can be loaded, whether or not a manager was
    -- made; otherwise it exits with 1.
    pub notmain-code :
        (notmain C env conf s).0 ≡ code_when (is_complete env conf && is_loaded (C.get_config s).0)
    notmain-code = elim (Option-cases (parse_cidr conf.pod_cidr)) [
      | inl e ↦ rw e (refused (unreadable e))
      | inr (net, e) ↦ readable net e
    ]
