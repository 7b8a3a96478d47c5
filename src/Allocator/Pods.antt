-- ===== src/Allocator/Pods.antt =====
-- What `allocate_ip2pod` and `release_pod_ip` return and store, over a server that answers.
use my_cni.Prelude.{
  ◌≡◌, ◌≢◌, refl, Bool, true, false, List, [], ◌∷◌, ◌++◌, Option, none, some, if◌then◌else◌,
}
use my_cni.Text.{Bytes, split, join, same}
use my_cni.Text.Equal.{same_ne, same_refl, same_comm}
use my_cni.Net.{Ip, IpNet, Notation6, parse_cidr}
use my_cni.Exec.{Error, ok, err, caused}
use my_cni.Etcd.{
  Etcd, IsLawful, WrappedClient, host_path, host_pool_path, host_gw_path, net_device_path,
}
use my_cni.Etcd.Laws.{
  got, wrote, erased, stored, Up, get_kv_up, put_kv_up, del_kv_up, got-Up, wrote-Up, erased-Up,
  stored-got, stored-wrote, stored-erased,
}
use my_cni.Etcd.Paths.{device_id, host-pool, host-device}
use my_cni.Utils.{convert_array_to_string}
use my_cni.Allocator.{
  Client, IpConfig, allocate_ip2pod, host_subnet, new_address, first, bad_cidr, reserved_conf,
  release_pod_ip, put_back,
}

module _ {E : Etcd} (L : IsLawful E) (hostname : Option Bytes) ⦃n6 : Notation6⦄
    (container_id ifname : Bytes) (c : WrappedClient E) (up : Up L c) where
  abbrev pub host : Bytes
  host = host_path hostname

  abbrev pub device : Bytes
  device = net_device_path hostname (device_id container_id ifname)

  -- The clients behind the reads that every allocation makes.
  abbrev pub read : WrappedClient E
  read = got device (got (host_gw_path hostname) (got host c))

  abbrev pub gateway : Option Ip
  gateway = first (parse_cidr (stored L c (host_gw_path hostname)))

  abbrev pub pool : Bytes
  pool = host_pool_path hostname

  host_subnet_set :
      stored L c host ≢ [] → host_subnet E hostname c ≡ (ok (stored L c host), got host c)
  unfolding host_subnet
  host_subnet_set h = rw (get_kv_up L c host up, same_ne _ _ h)

  pub read-Up : Up L read
  read-Up = got-Up L _ device (got-Up L _ (host_gw_path hostname) (got-Up L c host up))

  pub stored-read : (j : Bytes) → stored L read j ≡ stored L c j
  stored-read j = simp (stored-got L)

  branch :
      (b : Bool) (f g : Client E IpConfig)
      → (if b then f else g) read ≡ (if b then f read else g read)
  branch true f g = refl
  branch false f g = refl

  -- What every allocation on a node with a subnet does first.
  allocate_set :
      (a : Ip) (n : IpNet)
      → stored L c host ≢ []
      → parse_cidr (stored L c host) ≡ some (a, n)
      → allocate_ip2pod E hostname container_id ifname c ≡ (
          if same (stored L c device) []
          then new_address E hostname device n.mask gateway read
          else reserved_conf E hostname (stored L c device) n.mask gateway read)
  unfolding allocate_ip2pod
  allocate_set a n h p =
      rw
        (
          host_subnet_set h,
          p,
          get_kv_up L (got host c) (host_gw_path hostname) (got-Up L c host up),
          get_kv_up L (got (host_gw_path hostname) (got host c)) device
              (got-Up L _ (host_gw_path hostname) (got-Up L c host up)),
          stored-got L (got host c) (host_gw_path hostname) device,
          stored-got L c host device,
          stored-got L c host (host_gw_path hostname),
        )
        (branch (same (stored L c device) []) _ _)

  -- On a node whose subnet cannot be read, an allocation fails behind one read.
  pub allocate_unreadable :
      stored L c host ≢ []
      → parse_cidr (stored L c host) ≡ none
      → (e : Error) × (allocate_ip2pod E hostname container_id ifname c ≡ (err e, got host c))
  unfolding allocate_ip2pod
  allocate_unreadable h p = (
    caused "Cannot parse hoststring as valid ipcidr! err is %v" bad_cidr,
    rw (host_subnet_set h, p) refl,
  )

  -- The client behind a new address.
  abbrev pub given : Bytes → List Bytes → WrappedClient E
  given ip ips = wrote device ip (wrote pool (join b';' ips) (got pool read))

  -- A device with no address gets the first entry of the node's pool.
  pub allocate_new :
      (a : Ip) (n : IpNet) (ip : Bytes) (ips : List Bytes)
      → stored L c host ≢ []
      → parse_cidr (stored L c host) ≡ some (a, n)
      → stored L c device ≡ []
      → split b';' (stored L c pool) ≡ ip ∷ ips
      → allocate_ip2pod E hostname container_id ifname c ≡ (
        ok (record {
          address = first (parse_cidr ip);
          mask = n.mask;
          gateway = gateway;
          interface = none;
        }),
        given ip ips,
      )
  unfolding new_address convert_array_to_string
  allocate_new a n ip ips h p d q = rw (
    allocate_set a n h p,
    d,
    same_refl [],
    get_kv_up L read pool read-Up,
    stored-read pool,
    q,
    put_kv_up L (got pool read) pool (got-Up L read _ read-Up) (join b';' ips),
    put_kv_up L (wrote pool (join b';' ips) (got pool read)) device
        (wrote-Up L _ _ (got-Up L read _ read-Up) _) ip,
  )

  pub stored-given :
      (ip : Bytes) (ips : List Bytes) (j : Bytes)
      → stored L (given ip ips) j
        ≡ (if same device j then ip else if same pool j then join b';' ips else stored L c j)
  stored-given ip ips j = rw (
    stored-wrote L (wrote pool (join b';' ips) (got pool read)) device
        (wrote-Up L _ _ (got-Up L read _ read-Up) _) ip j,
    stored-wrote L (got pool read) pool (got-Up L read _ read-Up) (join b';' ips) j,
    stored-got L read pool j,
    stored-read j,
  )

  -- A device that has a text is answered from it, and nothing is written.
  pub allocate_held :
      (a : Ip) (n : IpNet)
      → stored L c host ≢ []
      → parse_cidr (stored L c host) ≡ some (a, n)
      → stored L c device ≢ []
      → allocate_ip2pod E hostname container_id ifname c
        ≡ reserved_conf E hostname (stored L c device) n.mask gateway read
  allocate_held a n h p d = rw (allocate_set a n h p, same_ne _ _ d)

  -- The client behind a release.
  abbrev pub freed : Bytes → WrappedClient E
  freed w =
      erased device
        (wrote pool (join b';' (split b';' (stored L c pool) ++ w ∷ [])) (got pool (got device c)))

  pub release_set :
      stored L c device ≢ []
      → release_pod_ip E hostname container_id ifname c ≡ (ok true, freed (stored L c device))
  unfolding release_pod_ip put_back convert_array_to_string
  release_set d = rw (
    get_kv_up L c device up,
    same_ne _ _ d,
    get_kv_up L (got device c) pool (got-Up L c device up),
    stored-got L c device pool,
    put_kv_up L (got pool (got device c)) pool (got-Up L _ _ (got-Up L c device up)) returned,
    del_kv_up L (wrote pool returned (got pool (got device c))) device
        (wrote-Up L _ _ (got-Up L _ _ (got-Up L c device up)) _),
  )
    where
      returned : Bytes
      returned = join b';' (split b';' (stored L c pool) ++ stored L c device ∷ [])

  pub stored-freed :
      (w j : Bytes)
      → stored L (freed w) j ≡ (
          if same device j
          then []
          else if same pool j
          then join b';' (split b';' (stored L c pool) ++ w ∷ [])
          else stored L c j)
  stored-freed w j = rw (
    stored-erased L
        (wrote pool (join b';' (split b';' (stored L c pool) ++ w ∷ [])) (got pool (got device c)))
        device (wrote-Up L _ _ (got-Up L _ _ (got-Up L c device up)) _) j,
    stored-wrote L (got pool (got device c)) pool (got-Up L _ _ (got-Up L c device up)) _ j,
    stored-got L (got device c) pool j,
    stored-got L c device j,
  )

  pub release_unset :
      stored L c device ≡ []
      → release_pod_ip E hostname container_id ifname c ≡ (ok true, got device c)
  unfolding release_pod_ip
  release_unset d = rw (get_kv_up L c device up, d, same_refl [])

  pub given-Up : (ip : Bytes) (ips : List Bytes) → Up L (given ip ips)
  given-Up ip ips = wrote-Up L _ _ (wrote-Up L _ _ (got-Up L read _ read-Up) _) ip

  pub freed-Up : (w : Bytes) → Up L (freed w)
  freed-Up w = erased-Up L _ device (wrote-Up L _ _ (got-Up L _ _ (got-Up L c device up)) _)

  -- The subnet of the node stays.
  pub host-given : (ip : Bytes) (ips : List Bytes) → stored L (given ip ips) host ≡ stored L c host
  host-given ip ips = rw (
    stored-given ip ips host,
    same_comm device host,
    host-device hostname (device_id container_id ifname),
    same_comm pool host,
    host-pool hostname,
  )

  pub host-freed : (w : Bytes) → stored L (freed w) host ≡ stored L c host
  host-freed w = rw (
    stored-freed w host,
    same_comm device host,
    host-device hostname (device_id container_id ifname),
    same_comm pool host,
    host-pool hostname,
  )
