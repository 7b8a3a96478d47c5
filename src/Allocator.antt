-- ===== src/Allocator.antt =====
-- plugins/ipam/etcdmode/allocator/allocator.go: the subnet of a node and the addresses of its pods,
-- all kept in etcd.
pub mod Pods
pub mod Distinct
pub mod Exclusive
pub mod Runs
pub mod Answers
pub mod Sequences
pub mod Hosts
pub mod Refill
pub mod Found
pub mod Cluster
use my_cni.Prelude.{
  ℕ, zero, suc, ◌+◌, Bool, true, false, not, List, [], ◌∷◌, ◌++◌, Option, none, some, if◌then◌else◌,
}
use my_cni.Text.{Bytes, codes, split, join, same}
use my_cni.Net.{Ip, Mask, IpNet, Notation6, parse_cidr, itoa}
use my_cni.Exec.{
  Exec, Error, message, pure, raise, crash, lift, wrap, ignore, from_option, ◌>>=◌, ◌>>◌,
}
use my_cni.Etcd.{
  Etcd, WrappedClient, get_kv, put_kv, del_kv, get_init_pool_status, set_init_pool_status,
  host_path, ip_pool_path, host_pool_path, host_gw_path, net_device_path,
}
use my_cni.Etcd.Paths.{device_id}
use my_cni.Utils.{get_gateway, get_valid_ips, convert_string_to_array, convert_array_to_string}

-- `current.IPConfig`.
pub record IpConfig : Type 0 where
  pub address : Option Ip
  pub mask : Mask
  pub gateway : Option Ip
  pub interface : Option ℕ

-- `parts[0]` and `parts[1:]`.
abbrev pub uncons : List Bytes → Option (Bytes × List Bytes)
uncons [] = none
uncons (p ∷ ps) = some (p, ps)

-- The first result of `net.ParseCIDR`; nil on an error.
abbrev pub first : Option (Ip × IpNet) → Option Ip
first none = none
first (some (ip, n)) = some ip

-- A value whose error is not looked at: the empty text in its place.
abbrev pub or_empty : Option Bytes → Bytes
or_empty none = []
or_empty (some s) = s

abbrev pub bad_cidr : Error
bad_cidr = message "invalid CIDR address"

module _ (E : Etcd) where
  abbrev pub Client : Type 0 → Type 0
  Client A = Exec (WrappedClient E) A

  abbrev pub take_first : Bytes → Option (Bytes × List Bytes) → Client Bytes
  take_first pool_key none = crash
  take_first pool_key (some (ans, rest)) = do
    put_kv E pool_key (convert_array_to_string rest)
    pure ans

  -- An error of the last write comes back with the address; the callers drop the address then.
  unfoldable pub get_one_ip_from_pool : Bytes → Client Bytes
  get_one_ip_from_pool pool_key = do
    val ← get_kv E pool_key
    take_first pool_key (uncons (convert_string_to_array val))

module _ (E : Etcd) (hostname : Option Bytes) ⦃n6 : Notation6⦄ where
  -- Steps 1 to 4 of `AllocateIP2Host`. The error of the last write is dropped.
  unfoldable pub allocate_subnet : Client E Bytes
  allocate_subnet = do
    ip ← wrap "Cannot get ip from ip pool, msg: %v" (get_one_ip_from_pool E ip_pool_path)
    wrap "Cannot assign up to host! Error is: %v" (put_kv E (host_path hostname) ip)
    gwip ← lift (get_gateway ip)
    wrap "Cannot assign gateway! Error is: %v" (put_kv E (host_gw_path hostname) gwip)
    ips ← wrap "Get valid ips failed! err is %v" (lift (get_valid_ips ip))
    ignore (put_kv E (host_pool_path hostname) (convert_array_to_string ips))
    pure ip

  unfoldable pub allocate_ip2host : Client E Bytes
  allocate_ip2host = do
    hostip ← wrap "Error when getting host ip! err is %v" (get_kv E (host_path hostname))
    if same hostip [] then allocate_subnet else pure hostip

  -- The answer for a device that has an address already.
  abbrev pub reserved_conf : Bytes → Mask → Option Ip → Client E IpConfig
  reserved_conf allocated_ip mask gw = do
    (addr, _) ←
        from_option (message "Invalid ip cidr in allocated ip for container %s")
          (parse_cidr allocated_ip)
    pure (record { address = some addr; mask = mask; gateway = gw; interface = none })

  -- The first entry of the node's pool goes to the device. Neither the error of its text nor that of
  -- writing the pool back is looked at.
  abbrev pub take_address :
      Bytes → Mask → Option Ip → Option (Bytes × List Bytes) → Client E IpConfig
  take_address device mask gw none = raise (message "All ip address has been used under this host!")
  take_address device mask gw (some (ip, ips)) = do
    ignore (put_kv E (host_pool_path hostname) (convert_array_to_string ips))
    wrap "Error happened when writing new config into etcd! %v" (put_kv E device ip)
    pure (record { address = first (parse_cidr ip); mask = mask; gateway = gw; interface = none })

  -- A failure to read the pool reads as an empty pool.
  unfoldable pub new_address : Bytes → Mask → Option Ip → Client E IpConfig
  new_address device mask gw = do
    pool ← ignore (get_kv E (host_pool_path hostname))
    take_address device mask gw (uncons (split b';' (or_empty pool)))

  -- The subnet of the node, which is taken from the cluster's pool if it has none.
  unfoldable pub host_subnet : Client E Bytes
  host_subnet = do
    hoststring ← wrap "Cannot get subnet for host %v" (get_kv E (host_path hostname))
    if same hoststring []
        then wrap "Error when allocate ip2host: %v" allocate_ip2host
        else pure hoststring

  unfoldable pub allocate_ip2pod : Bytes → Bytes → Client E IpConfig
  allocate_ip2pod container_id ifname = do
    hoststring ← host_subnet
    (_, hostsubnet) ←
        wrap "Cannot parse hoststring as valid ipcidr! err is %v"
          (from_option bad_cidr (parse_cidr hoststring))
    gwip ← wrap "Cannot get gateway! Error is: %v" (get_kv E (host_gw_path hostname))
    let gw = first (parse_cidr gwip)
    let device = net_device_path hostname (device_id container_id ifname)
    allocated_ip ← wrap "Cannot get current network device! err is %v" (get_kv E device)
    if same allocated_ip []
        then new_address device hostsubnet.mask gw
        else reserved_conf allocated_ip hostsubnet.mask gw

module _ (E : Etcd) (hostname : Option Bytes) where
  -- The address goes back to the end of the node's pool.
  unfoldable pub put_back : Bytes → Bytes → Client E Bool
  put_back device allocated_ip = do
    pool ← ignore (get_kv E (host_pool_path hostname))
    let ips = split b';' (or_empty pool) ++ allocated_ip ∷ []
    ignore (put_kv E (host_pool_path hostname) (convert_array_to_string ips))
    wrap "Error happened when removing config for device %s! error is %v" (del_kv E device)
    pure true

  unfoldable pub release_pod_ip : Bytes → Bytes → Client E Bool
  release_pod_ip container_id ifname = do
    let device = net_device_path hostname (device_id container_id ifname)
    allocated_ip ← wrap "Cannot get current network device! err is %v" (get_kv E device)
    if same allocated_ip [] then pure true else put_back device allocated_ip

  unfoldable pub release_host_ip : Client E Bool
  release_host_ip = do
    hostip ← wrap "Error when getting host ip! err is %v" (get_kv E (host_path hostname))
    if same hostip [] then pure true else do
      wrap "Error when del host ip! err is %v" (del_kv E (host_path hostname))
      wrap "Error when del host's gateway ip! err is %v" (del_kv E (host_gw_path hostname))
      pure true

  unfoldable pub release_host_gateway : Client E Bool
  release_host_gateway = do
    wrap "Cannot release host gateway ip %v" (del_kv E (host_gw_path hostname))
    pure true

  unfoldable pub find_ip_by_id : Bytes → Bytes → Client E Bytes
  find_ip_by_id container_id ifname =
      wrap "Error when get container info with id %s, %v"
        (get_kv E (net_device_path hostname (device_id container_id ifname)))

  unfoldable pub find_by_id : Bytes → Bytes → Client E Bool
  find_by_id container_id ifname = do
    res ←
        wrap "Error when get container info with id %s, %v"
          (get_kv E (net_device_path hostname (device_id container_id ifname)))
    pure (not (same res []))
