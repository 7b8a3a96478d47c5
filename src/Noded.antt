-- ===== src/Noded.antt =====
-- cmd/mycnid.go: the daemon of a node. The controller library, the client of Kubernetes and the flags
-- are parameters; log lines are left out.
pub mod Config
use my_cni.Prelude.{ℕ, Bool, true, false, List, [], ◌∷◌, Option, none, some, if◌then◌else◌}
use my_cni.Text.{Bytes, codes, same}
use my_cni.Net.{Ip, IpNet, Notation6, parse_cidr, parse_ip}
use my_cni.Exec.{
  Exec, Error, Result, ok, err, panic, hang, message, caused, pure, raise, lift, rescue, wrap,
  from_option, ◌>>=◌, ◌>>◌,
}

pub record DaemonConf : Type 0 where
  pub node_name : Bytes
  pub pod_cidr : Bytes

-- `corev1.NodeAddress`.
pub record NodeAddress : Type 0 where
  pub kind : Bytes
  pub address : Bytes

-- `corev1.Node`.
pub record Node : Type 0 where
  pub name : Bytes
  pub addresses : List NodeAddress

-- `corev1.NodeInternalIP`.
abbrev pub internal_ip : Bytes
internal_ip = codes "InternalIP"

-- The cluster that the client reads, and the process, which exits with a code.
pub record Cluster : Type 1 where
  pub State : Type 0
  pub Config : Type 0
  pub get_config : Exec State Config
  pub new_manager : Config → Exec State (Unit {0})
  pub get_node : Bytes → Exec State Node
  pub list_nodes : Exec State (List Node)

module _ ⦃n6 : Notation6⦄ where
  -- The value of `NODE_NAME` stands in for an empty name.
  unfoldable pub parse_config : Bytes → DaemonConf → Result DaemonConf
  parse_config node_name_env conf = elim (parse_cidr conf.pod_cidr) [
    | none ↦ err (caused "Pod CIDR is invaild: %v" (message "invalid CIDR address"))
    | some net ↦
        let named =
          if same conf.node_name [] then record conf { node_name = node_name_env } else conf in
        if same named.node_name [] then err (message "node name is empty") else ok named
  ]

  -- The loop ends at the first internal address, also one that cannot be read.
  abbrev pub first_internal : List NodeAddress → Option Ip
  first_internal [] = none
  first_internal (a ∷ more) =
      let later = first_internal more in
      if same a.kind internal_ip then parse_ip a.address else later

  -- `none` is a nil node.
  unfoldable pub get_node_internal_ip : Option Node → Result Ip
  get_node_internal_ip none = err (message "empty node")
  get_node_internal_ip (some node) = elim (first_internal node.addresses) [
    | none ↦ err (message "node %s ip is nil")
    | some ip ↦ ok ip
  ]

-- How a function ends that may end the process.
pub data Outcome : Type 0 where
  returns : Result (Unit {0}) → Outcome
  exits : ℕ → Outcome

module _ (C : Cluster) where
  -- The function returns before it looks at the error of the manager, and what follows is never
  -- reached.
  abbrev pub made : Result (Unit {0}) × C.State → Outcome × C.State
  made (ok u, s) = (returns (ok tt), s)
  made (err e, s) = (returns (ok tt), s)
  made (r, s) = (returns r, s)

  -- `config.GetConfigOrDie` ends the process with 1 where there is no configuration.
  abbrev pub or_die : Result C.Config × C.State → Outcome × C.State
  or_die (ok config, s) = made (C.new_manager config s)
  or_die (err e, s) = (exits 1, s)
  or_die (panic, s) = (returns panic, s)
  or_die (hang, s) = (returns hang, s)

  unfoldable pub run_controller : DaemonConf → C.State → Outcome × C.State
  run_controller conf s = or_die (C.get_config s)

  module _ ⦃n6 : Notation6⦄ where
    -- `none` is the nil reconciler that the code returns.
    unfoldable pub new_reconciler : DaemonConf → Exec C.State (Option (Unit {0}))
    new_reconciler conf = do
      cidr ← from_option (message "invalid CIDR address") (parse_cidr conf.pod_cidr)
      node ← C.get_node conf.node_name
      rescue (lift (get_node_internal_ip (some node)))
          (λ e. raise (message "failed to get host ip for node %s"))
      pure none

    -- The exit code; that of a panic is 2, and none is that of a process that goes on.
    abbrev pub code_of : Outcome × C.State → Option ℕ × C.State
    code_of (returns (ok u), s) = (some 0, s)
    code_of (returns (err e), s) = (some 1, s)
    code_of (returns panic, s) = (some 2, s)
    code_of (returns hang, s) = (none, s)
    code_of (exits n, s) = (some n, s)

    abbrev pub run_parsed : Result DaemonConf → C.State → Option ℕ × C.State
    run_parsed (ok conf) s = code_of (run_controller conf s)
    run_parsed (err e) s = (some 1, s)
    run_parsed panic s = (some 2, s)
    run_parsed hang s = (none, s)

    -- The flags are parsed already.
    unfoldable pub notmain : Bytes → DaemonConf → C.State → Option ℕ × C.State
    notmain node_name_env conf s = run_parsed (parse_config node_name_env conf) s

  -- The nodes are only printed.
  unfoldable pub reconcile : Exec C.State (Unit {0})
  reconcile = do nodes ← C.list_nodes; pure tt
