-- ===== src/Etcdmode.antt =====
-- plugins/ipam/etcdmode/main.go: the commands of the etcd address plugin; allocator/config.go beside
-- it: its configuration; etcdwrap/client.go: the client that a process keeps. The JSON decoder, the
-- connection to the server and the printing of a result are parameters.
pub mod Commands
pub mod Fresh
use my_cni.Prelude.{Bool, true, false, not, List, [], ◌∷◌, ◌++◌, Option, none, some, if◌then◌else◌}
use my_cni.Text.{Bytes}
use my_cni.Net.{Notation6}
use my_cni.Exec.{
  Exec, Error, Result, ok, err, panic, message, caused, pure, raise, crash, lift, rescue, ignore,
  ◌>>=◌, ◌>>◌,
}
use my_cni.Etcd.{Etcd, WrappedClient, get_init_pool_status}
use my_cni.InitPool.{init_pool}
use my_cni.Allocator.{IpConfig, allocate_ip2pod, release_pod_ip, find_by_id}

pub record IpamConfig : Type 0 where
  pub name : Bytes
  pub kind : Bytes

-- `Net` of allocator/config.go.
pub record NetConfig : Type 0 where
  pub name : Bytes
  pub cni_version : Bytes
  pub ipam : Option IpamConfig

abbrev with_name : NetConfig → Option IpamConfig → Result (IpamConfig × Bytes)
with_name n none = err (message "IPAM config missing 'ipam' key")
with_name n (some c) = ok (record c { name = n.name }, n.cni_version)

abbrev named : Result NetConfig → Result (IpamConfig × Bytes)
named (ok n) = with_name n n.ipam
named (err e) = err e
named _ = panic

-- The second argument of the code is not read.
unfoldable pub load_ipam_config : (Bytes → Result NetConfig) → Bytes → Result (IpamConfig × Bytes)
load_ipam_config unmarshal bytes = named (unmarshal bytes)

-- A process: the server, whether `__innerGetEtcdClient` is set, the flag of the client that it keeps,
-- and the results printed.
pub record Process (E : Etcd) : Type 0 where
  pub server : E.State
  pub factory : Bool
  pub cached : Option Bool
  pub printed : List IpConfig

pub record CmdArgs : Type 0 where
  pub container_id : Bytes
  pub if_name : Bytes
  pub stdin_data : Bytes

module _ (E : Etcd) where
  -- `Init` of the client package.
  unfoldable pub init : Exec (Process E) (Unit {0})
  init p = (ok tt, record p { factory = true })

  module _ (connect : Exec E.State (Unit {0})) where
    abbrev keep_client : Process E → Result (Unit {0}) × E.State → Result Bool × Process E
    keep_client p (ok u, s) = (ok true, record p { server = s; cached = some false })
    keep_client p (err e, s) =
        (err (caused "Failed to connected etcd server, message: %w" e), record p { server = s })
    keep_client p (_, s) = (panic, record p { server = s })

    abbrev cached_client : Option Bool → Exec (Process E) Bool
    cached_client none p = keep_client p (connect p.server)
    cached_client (some flag) p = (ok true, p)

    -- Whether there is a client; without `Init` the code returns nil.
    unfoldable pub get_etcd_client : Exec (Process E) Bool
    get_etcd_client p = if p.factory then cached_client p.cached p else (ok false, p)

  abbrev put_client : {A : Type 0} → Process E → Result A × WrappedClient E → Result A × Process E
  put_client p (r, c) = (r, record p { server = c.client; cached = some c.pool_init_status })

  abbrev through : {A : Type 0} → Option Bool → Exec (WrappedClient E) A → Exec (Process E) A
  through none m p = (panic, p)
  through (some flag) m p = put_client p (m (record { client = p.server; pool_init_status = flag }))

  -- A call of a method of the client.
  abbrev pub on_client : {A : Type 0} → Exec (WrappedClient E) A → Exec (Process E) A
  on_client m p = through p.cached m p

  abbrev keep_printed : List IpConfig → Result (Unit {0}) → Exec (Process E) (Unit {0})
  keep_printed ips (ok u) p = (ok tt, record p { printed = p.printed ++ ips })
  keep_printed ips (err e) p = (err e, p)
  keep_printed ips r p = (panic, p)

  module _ (unmarshal : Bytes → Result NetConfig) (connect : Exec E.State (Unit {0}))
      (print_result : List IpConfig → Bytes → Result (Unit {0})) (hostname : Option Bytes)
      ⦃n6 : Notation6⦄ where
    -- The interface is set before the error is looked at: a failed allocation gives no configuration
    -- to set it in.
    unfoldable pub cmd_add : CmdArgs → Exec (Process E) (Unit {0})
    cmd_add args = do
      (_, conf_version) ← lift (load_ipam_config unmarshal args.stdin_data)
      init
      rescue (get_etcd_client connect) (λ e. raise (message "failed to boot etcd client!"))
      pool_ready ← on_client (get_init_pool_status E)
      if pool_ready
          then pure true
          else rescue (on_client (init_pool E)) (λ e. raise (message "Failed to initip pool"))
      ip_conf ←
          rescue (on_client (allocate_ip2pod E hostname args.container_id args.if_name))
            (λ e. crash)
      let ips = record ip_conf { interface = some 2 } ∷ []
      keep_printed ips (print_result ips conf_version)

    unfoldable pub cmd_check : CmdArgs → Exec (Process E) (Unit {0})
    cmd_check args = do
      lift (load_ipam_config unmarshal args.stdin_data)
      init
      rescue (get_etcd_client connect)
          (λ e. raise (caused "Failed to bootup etcd client! Error is %v" e))
      found ←
          rescue (on_client (find_by_id E hostname args.container_id args.if_name))
            (λ e. pure false)
      if found
          then pure tt
          else raise (message "etcdmode: Failed to find address added by container %v")

    -- The configuration is not read.
    unfoldable pub cmd_del : CmdArgs → Exec (Process E) (Unit {0})
    cmd_del args = do
      init
      rescue (get_etcd_client connect)
          (λ e. raise (caused "Failed to bootup etcd client! Error is %v" e))
      rescue (on_client (release_pod_ip E hostname args.container_id args.if_name)) (λ e. raise e)
      pure tt
