-- ===== src/Etcdmode/Fresh.antt =====
-- The commands of the etcd address plugin, each run by a process of its own.
use my_cni.Prelude.{
  Bool, All, sym, if◌then◌else◌, ◌∙◌, ◌≡◌, ◌≢◌, refl, ap, subst, true, false, Option, none, some,
  List, [], ◌∷◌, ◌++◌,
}
use my_cni.Text.{Bytes, split, join, Lacks, same}
use my_cni.Text.Equal.{same_ne, same_refl, same_comm}
use my_cni.Text.Split.{split-Lacks}
use my_cni.Net.{Ip, IpNet, Notation6}
use my_cni.Exec.{Exec, Error, Result, ok, err, panic}
use my_cni.Etcd.{
  Etcd, IsLawful, WrappedClient, get_init_pool_status, ip_pool_path, host_path, host_pool_path,
  net_device_path,
}
use my_cni.Etcd.Laws.{stored, got, got-Up, stored-got, get_kv_up}
use my_cni.Etcd.Paths.{device_id, pool-device}
use my_cni.Allocator.{IpConfig, allocate_ip2pod, release_pod_ip}
use my_cni.Allocator.Pods.{given, given-Up, stored-given, release_set}
use my_cni.Allocator.Answers.{HasSubnet, new}
use my_cni.Allocator.Sequences.{release-returns}
use my_cni.Etcdmode.{
  IpamConfig, NetConfig, Process, CmdArgs, load_ipam_config, init, get_etcd_client, cmd_add,
  cmd_del,
}

module _ {E : Etcd} where
  -- A process that has just been started.
  abbrev pub fresh : E.State → Process E
  fresh s = record { server = s; factory = false; cached = none; printed = [] }

  -- The client that it makes.
  abbrev pub dialled : E.State → WrappedClient E
  dialled s = record { client = s; pool_init_status = false }

-- The environment of the plugin's processes: connecting changes no key.
pub record Env (E : Etcd) : Type 0 where
  pub unmarshal : Bytes → Result NetConfig
  pub connect : Exec E.State (Unit {0})
  pub print_result : List IpConfig → Bytes → Result (Unit {0})
  pub connects : (s : E.State) → connect s ≡ (ok tt, s)

module _ {E : Etcd} (V : Env E) (hostname : Option Bytes) ⦃n6 : Notation6⦄ (args : CmdArgs) where
  abbrev pub after_add : E.State → E.State
  after_add s = (cmd_add E V.unmarshal V.connect V.print_result hostname args (fresh s)).1.server

  abbrev pub after_del : E.State → E.State
  after_del s = (cmd_del E V.unmarshal V.connect V.print_result hostname args (fresh s)).1.server

  abbrev pub device_key : Bytes
  device_key = net_device_path hostname (device_id args.container_id args.if_name)

  abbrev pub pool_key : Bytes
  pool_key = host_pool_path hostname

  -- A process that has just been started releases an address.
  del_set :
      (s : E.State) (c : WrappedClient E)
      → release_pod_ip E hostname args.container_id args.if_name (dialled s) ≡ (ok true, c)
      → cmd_del E V.unmarshal V.connect V.print_result hostname args (fresh s) ≡ (
        ok tt,
        record {
          server = c.client;
          factory = true;
          cached = some c.pool_init_status;
          printed = [];
        },
      )
  unfolding cmd_del init get_etcd_client
  del_set s c a = rw (V.connects s, a)

  module _ (L : IsLawful E) (s : E.State) where
    -- A configuration that can be read, a result that can be printed, and a server that answers and
    -- has the cluster's pool.
    pub record Ready : Type 0 where
      pub config : IpamConfig
      pub conf_version : Bytes
      pub loads : load_ipam_config V.unmarshal args.stdin_data ≡ ok (config, conf_version)
      pub prints : (ips : List IpConfig) → V.print_result ips conf_version ≡ ok tt
      pub up : L.IsUp s
      pub filled : stored L (dialled s) ip_pool_path ≢ []

    abbrev pub ready : WrappedClient E
    ready = got ip_pool_path (dialled s)

    pool_ready : Ready → get_init_pool_status E (dialled s) ≡ (ok true, ready)
    unfolding get_init_pool_status
    pool_ready r = rw (get_kv_up L (dialled s) ip_pool_path r.up, same_ne _ _ r.filled)

    pub add_set :
        (r : Ready) (conf : IpConfig) (c : WrappedClient E)
        → allocate_ip2pod E hostname args.container_id args.if_name ready ≡ (ok conf, c)
        → cmd_add E V.unmarshal V.connect V.print_result hostname args (fresh s) ≡ (
          ok tt,
          record {
            server = c.client;
            factory = true;
            cached = some c.pool_init_status;
            printed = record conf { interface = some 2 } ∷ [];
          },
        )
    unfolding cmd_add init get_etcd_client
    add_set r conf c a = rw (r.loads, V.connects s, pool_ready r, a, r.prints _)

    -- A failed allocation gives no configuration to set the interface in.
    pub add_fails :
        (r : Ready) (e : Error) (c : WrappedClient E)
        → allocate_ip2pod E hostname args.container_id args.if_name ready ≡ (err e, c)
        → cmd_add E V.unmarshal V.connect V.print_result hostname args (fresh s) ≡ (
          panic,
          record {
            server = c.client;
            factory = true;
            cached = some c.pool_init_status;
            printed = [];
          },
        )
    unfolding cmd_add init get_etcd_client
    add_fails r e c a = rw (r.loads, V.connects s, pool_ready r, a)

    module _ (r : Ready) (subnet : Ip × IpNet) (ip : Bytes) (ips : List Bytes)
        (h : HasSubnet L hostname args.container_id args.if_name (dialled s) subnet)
        (free : stored L (dialled s) device_key ≡ [])
        (entries : split b';' (stored L (dialled s) pool_key) ≡ ip ∷ ips) where
      pub behind : (j : Bytes) → stored L ready j ≡ stored L (dialled s) j
      behind j = stored-got L (dialled s) ip_pool_path j

      pub ready-HasSubnet : HasSubnet L hostname args.container_id args.if_name ready subnet
      ready-HasSubnet = record {
        up = got-Up L (dialled s) ip_pool_path r.up;
        host_set = λ e. h.host_set (sym (behind (host_path hostname)) ∙ e);
        host_parses = rw (behind (host_path hostname)) h.host_parses;
      }

      -- The server after the first command.
      abbrev pub taken : WrappedClient E
      taken = given L hostname args.container_id args.if_name ready ready-HasSubnet.up ip ips

      after_add_taken : after_add s ≡ taken.client
      after_add_taken =
          ap (λ q. q.1.server)
            (add_set r _ taken (
              new L hostname args.container_id args.if_name ready subnet ready-HasSubnet ip ips
                (behind device_key ∙ free) (rw (behind pool_key) entries)))

      pub stored-taken :
          (j : Bytes)
          → stored L (dialled (after_add s)) j ≡ (
              if same device_key j
              then ip
              else if same pool_key j
              then join b';' ips
              else stored L (dialled s) j)
      stored-taken j = rw (
        after_add_taken,
        stored-given L hostname args.container_id args.if_name ready ready-HasSubnet.up ip ips j,
        behind j,
      )

      taken-Up : L.IsUp (after_add s)
      taken-Up =
          subst L.IsUp (sym after_add_taken)
            (given-Up L hostname args.container_id args.if_name ready ready-HasSubnet.up ip ips)

      holds : stored L (dialled (after_add s)) device_key ≡ ip
      holds = rw (stored-taken device_key, same_refl device_key)

      left : stored L (dialled (after_add s)) pool_key ≡ join b';' ips
      left = rw (
        stored-taken pool_key,
        same_comm device_key pool_key,
        pool-device hostname args.container_id args.if_name,
        same_refl pool_key,
      )

      clean : Lacks b';' ip
      clean = (subst (All (Lacks b';')) entries (split-Lacks b';' _)).0

      module _ (filled : ip ≢ []) where
        released : Result Bool × WrappedClient E
        released = release_pod_ip E hostname args.container_id args.if_name (dialled (after_add s))

        held : stored L (dialled (after_add s)) device_key ≢ []
        held e = filled (sym holds ∙ e)

        after_del_released : after_del (after_add s) ≡ released.1.client
        unfolding released
        after_del_released =
            let r =
              release_set L hostname args.container_id args.if_name (dialled (after_add s)) taken-Up
                held in
            ap (λ q. q.1.server) (del_set (after_add s) _ r) ∙ sym (ap (λ q. q.1.client) r)

        -- Over a server that answers and has the cluster's pool and the node's subnet, with a
        -- configuration that can be read and results that can be printed: when one process has added
        -- a pod's interface that had no address and another has deleted it, the interface has no
        -- address again, the first entry of the node's pool, if it is not empty, is its last, and no
        -- key but these two has a new text.
        pub cmd_del-cmd_add :
            (stored L (dialled (after_del (after_add s))) device_key ≡ [])
            × (split b';' (stored L (dialled (after_del (after_add s))) pool_key)
                ≡ split b';' (join b';' ips) ++ ip ∷ [])
            × ((j : Bytes)
                → same device_key j ≡ false
                → same pool_key j ≡ false
                → stored L (dialled (after_del (after_add s))) j ≡ stored L (dialled s) j)
        unfolding released
        cmd_del-cmd_add =
            let r =
              release-returns L hostname args.container_id args.if_name (dialled (after_add s))
                taken-Up held (rw holds clean) in
            rw after_del_released (
              r.1,
              r.2 ∙ rw (holds, left) refl,
              λ j d p. r.3 j d p ∙ rw (stored-taken j, d, p) refl,
            )
