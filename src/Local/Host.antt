-- ===== src/Local/Host.antt =====
-- pkg/config/config.go: the configuration of the local address plugin; `NewStore` and `Close` of
-- plugins/ipam/local/store/store.go; plugins/ipam/local/main.go: the commands. The JSON codec and the
-- printing of a result are parameters.
pub mod Commands
use my_cni.Prelude.{ℕ, Bool, true, false, List, [], ◌∷◌, ◌++◌, Option, none, some, if◌then◌else◌}
use my_cni.Text.{Bytes, codes, same}
use my_cni.Net.{Ip, Mask, IpNet, Notation6, parse_cidr}
use my_cni.Exec.{
  Exec, Error, Result, ok, err, panic, message, caused, pure, raise, lift, wrap, from_option,
  deferring, ◌>>=◌, ◌>>◌,
}
use my_cni.Local.Store.{Store, no_data}
use my_cni.Local.Ipam.{Ipam, new_ipam, allocate_ip, release_ip, check_ip}

pub record SubnetConf : Type 0 where
  pub subnet : Bytes
  pub bridge : Bytes

-- The fields of `PluginConf` that the program reads.
pub record PluginConf : Type 0 where
  pub name : Bytes
  pub cni_version : Bytes
  pub data_dir : Bytes

pub record CniConf : Type 0 where
  pub plugin : PluginConf
  pub subnet : SubnetConf

-- `current.Result` as `cmdAdd` makes it: one address with its gateway, one route.
pub record CniResult : Type 0 where
  pub address : Option Ip
  pub mask : Mask
  pub gateway : Option Ip
  pub route : IpNet
  pub route_gateway : Option Ip

-- The host: the subnet file, if it can be read, and whether it can be written; the stores by the path
-- of their file, and whether the lock of a path can be made; the paths whose store was closed; the
-- results printed.
pub record Host : Type 0 where
  pub subnet_file : Option Bytes
  pub writable : Bool
  pub stores : Bytes → Store
  pub lockable : Bytes → Bool
  pub closed : List Bytes
  pub printed : List CniResult

module _ (unmarshal_subnet : Bytes → Result SubnetConf) where
  unfoldable pub load_subnet_config : Exec Host SubnetConf
  load_subnet_config h =
      (do
        data_read ← from_option (message "open /run/testcni/subnet.json") h.subnet_file
        lift (unmarshal_subnet data_read))
        h

module _ (marshal_subnet : SubnetConf → Bytes) where
  unfoldable pub store_subnet_config : SubnetConf → Exec Host (Unit {0})
  store_subnet_config conf h =
      if h.writable
      then (ok tt, record h { subnet_file = some (marshal_subnet conf) })
      else (err (message "open /run/testcni/subnet.json"), h)

module _ (unmarshal_plugin : Bytes → Result PluginConf)
    (unmarshal_subnet : Bytes → Result SubnetConf) where
  unfoldable pub parse_plugin_config : Bytes → Exec Host PluginConf
  parse_plugin_config stdin =
      wrap "failed to parse network configuration: %v" (lift (unmarshal_plugin stdin))

  unfoldable pub load_cni_config : Bytes → Exec Host CniConf
  load_cni_config stdin = do
    plugin_conf ← parse_plugin_config stdin
    subnet_conf ← load_subnet_config unmarshal_subnet
    pure (record { plugin = plugin_conf; subnet = subnet_conf })

-- `filepath.Join` of elements that are clean already.
abbrev path_join : Bytes → Bytes → Bytes
path_join dir name = dir ++ b'/' ∷ name

unfoldable pub file_path : Bytes → Bytes → Bytes
file_path data_dir network =
    let dir = path_join (if same data_dir [] then codes "/var/lib/testcni" else data_dir) network in
    path_join dir (network ++ codes ".json")

abbrev pub fresh : Store → Store
fresh s = record s { data_now = no_data }

abbrev pub put_store : Bytes → Store → Host → Host
put_store path s h = record h { stores = λ p. if same p path then s else h.stores p }

-- The path of the new store stands for the store.
unfoldable pub new_store : Bytes → Bytes → Exec Host Bytes
new_store data_dir network h =
    let path = file_path data_dir network in
    if h.lockable path
    then (ok path, put_store path (fresh (h.stores path)) h)
    else (err (message "lock"), h)

unfoldable pub close : Bytes → Exec Host (Unit {0})
close path h = (ok tt, record h { closed = h.closed ++ path ∷ [] })

abbrev set_store : {A : Type 0} → Bytes → Host → Result A × Store → Result A × Host
set_store path h (r, s) = (r, put_store path s h)

-- A call on the store of a path.
abbrev pub on_store : {A : Type 0} → Bytes → Exec Store A → Exec Host A
on_store path m h = set_store path h (m (h.stores path))

abbrev pub cluster_cidr : Bytes
cluster_cidr = codes "10.244.0.0/16"

abbrev keep_printed : CniResult → Result (Unit {0}) → Exec Host (Unit {0})
keep_printed r (ok u) h = (ok tt, record h { printed = h.printed ++ r ∷ [] })
keep_printed r (err e) h = (err e, h)
keep_printed r o h = (panic, h)

-- One result: the address of the container, and the route to the whole cluster behind the gateway.
abbrev pub answer_add : Ipam → Option Ip → IpNet → CniResult
answer_add im ip cidr = record {
  address = ip;
  mask = im.subnet.mask;
  gateway = im.gateway;
  route = cidr;
  route_gateway = im.gateway;
}

-- The arguments of a command: the container, the interface and the configuration.
pub record Args : Type 0 where
  pub container_id : Bytes
  pub if_name : Bytes
  pub stdin_data : Bytes

module _ (unmarshal_plugin : Bytes → Result PluginConf)
    (unmarshal_subnet : Bytes → Result SubnetConf)
    (print_result : CniResult → Bytes → Result (Unit {0})) (cip_next : Option Ip → Option Ip)
    ⦃n6 : Notation6⦄ where
  unfoldable pub cmd_add : Args → Exec Host (Unit {0})
  cmd_add args = do
    conf ← load_cni_config unmarshal_plugin unmarshal_subnet args.stdin_data
    path ← new_store conf.plugin.data_dir conf.plugin.name
    deferring (close path) (do
      im ← lift (new_ipam cip_next conf.subnet.subnet)
      ip ← on_store path (allocate_ip cip_next im args.container_id args.if_name)
      (_, cidr) ← from_option (message "invalid CIDR address") (parse_cidr cluster_cidr)
      let r = answer_add im ip cidr
      keep_printed r (print_result r conf.plugin.cni_version))

  unfoldable pub cmd_check : Args → Exec Host (Unit {0})
  cmd_check args = do
    conf ← load_cni_config unmarshal_plugin unmarshal_subnet args.stdin_data
    path ← new_store conf.plugin.data_dir conf.plugin.name
    deferring (close path) (do
      wrap "failed to create ipam: %v" (lift (new_ipam cip_next conf.subnet.subnet))
      on_store path (check_ip args.container_id)
      pure tt)

  unfoldable pub cmd_del : Args → Exec Host (Unit {0})
  cmd_del args = do
    conf ← load_cni_config unmarshal_plugin unmarshal_subnet args.stdin_data
    path ← new_store conf.plugin.data_dir conf.plugin.name
    deferring (close path) (do
      wrap "failed to create ipam: %v" (lift (new_ipam cip_next conf.subnet.subnet))
      on_store path (release_ip args.container_id)
      pure tt)
