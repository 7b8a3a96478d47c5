-- ===== src/Links.antt =====
-- pkg/ip/ip.go and pkg/ip/route_linux.go: the links and the routes that the plugin makes.
pub mod Untouched
pub mod Attempts
use my_cni.Prelude.{
  ℕ, zero, suc, ◌+◌, ◌-◌, ◌/◌, ◌%◌, ◌^◌, Bool, true, false, ◌&&◌, ◌||◌, not, List, [], ◌∷◌, ◌++◌,
  Option, none, some, ltb, ◌==◌, if◌then◌else◌,
}
use my_cni.Text.{Bytes, codes, join, same}
use my_cni.Net.{Ip, Mask, IpNet, v4, v6, to4}
use my_cni.Exec.{
  Exec, Error, Result, ok, err, link_not_found, already_exist, message, caused, pure, raise, crash,
  lift, rescue, wrap, ignore, deferring, ◌>>=◌, ◌>>◌,
}
use my_cni.Tc.{runs}
use my_cni.Kernel.{
  World, Link, LinkType, veth, vxlan, other, NewLink, new_vxlan, new_veth, Route, universe, host,
  shell, inside, assign, scoped,
}

abbrev hex_digit : ℕ → ℕ
hex_digit n = if ltb n 10 then b'0' + n else b'a' + (n - 10)

abbrev pub hex_byte : ℕ → Bytes
hex_byte b = hex_digit (b / 16 % 16) ∷ hex_digit (b % 16) ∷ []

-- `fmt.Sprintf("%x", b)`.
unfoldable pub hex : Bytes → Bytes
hex [] = []
hex (b ∷ bs) = hex_byte b ++ hex bs

abbrev pairs : Bytes → List Bytes
pairs [] = []
pairs (b ∷ bs) = hex_byte b ∷ pairs bs

-- `net.HardwareAddr.String()`.
abbrev pub mac_string : Bytes → Bytes
mac_string b = join b':' (pairs b)

abbrev pub is_veth : LinkType → Bool
is_veth veth = true
is_veth _ = false

abbrev pub is_vxlan : LinkType → Bool
is_vxlan vxlan = true
is_vxlan _ = false

-- `os.IsExist(err)`: an error that cites another is none of these.
abbrev pub is_exist : Error → Bool
is_exist already_exist = true
is_exist _ = false

-- `if _, ok := err.(netlink.LinkNotFoundError)`.
abbrev not_found : Error → Error → Error
not_found link_not_found e = link_not_found
not_found _ e = e

-- `ip.IsGlobalUnicast()`: not the broadcast address, and neither unspecified, loopback, multicast nor
-- link-local unicast.
unfoldable pub is_global_unicast : Ip → Bool
is_global_unicast ip = elim (to4 ip) [
  | some n ↦
      not (n == 0xffffffff)
      && (not (n == 0)
          && (not (n / 2 ^ 24 == 127) && (not (n / 2 ^ 28 == 14) && not (n / 2 ^ 16 == 0xa9fe))))
  | none ↦ elim ip [
    | v4 n ↦ false
    | v6 n ↦
        not (n == 0) && (not (n == 1) && (not (n / 2 ^ 120 == 255) && not (n / 2 ^ 118 == 1018)))
  ]
]

module _ (W : World) where
  abbrev St : Type 0
  St = W.bpf.State

  -- The code gives back the value that it asked for.
  unfoldable pub make_vxlan : Bytes → ℕ → Exec St (Unit {0})
  make_vxlan name mtu = W.link_add (new_vxlan name mtu 1 114514 64)

  abbrev mac_of : Bytes → Exec St (Option Bytes)
  mac_of [] = pure none
  mac_of (c ∷ s) = do m ← lift (W.parse_mac (c ∷ s)); pure (some m)

  -- A link that cannot be fetched again is deleted, and an error of that is dropped.
  unfoldable pub make_veth_pair : Bytes → Bytes → ℕ → Bytes → W.Ns → Exec St Link
  make_veth_pair name peer mtu mac host_ns = do
    m ← mac_of mac
    W.link_add (new_veth name peer mtu (W.ns_fd host_ns) m)
    rescue (W.link_by_name name) (λ e. do ignore (W.link_del name); raise e)

  unfoldable pub peer_exists : Bytes → Exec St Bool
  peer_exists name = rescue (do W.link_by_name name; pure true) (λ e. pure false)

  unfoldable pub random_veth_name : Exec St Bytes
  random_veth_name = do
    entropy ← wrap "failed to generate random veth name: %v" (W.random 4)
    pure (codes "veth" ++ hex entropy)

  abbrev peer_name_of : Bytes → Exec St Bytes
  peer_name_of [] = random_veth_name
  peer_name_of (c ∷ s) = pure (c ∷ s)

  abbrev retry_if : Bool → Exec St (Unit {0})
  retry_if true = pure tt
  retry_if false = raise (message "container veth name provided (%v) already exists")

  -- What the loop does with an error; `pure tt` is its `continue`.
  abbrev pub retry : Bytes → Bytes → Error → Exec St (Unit {0})
  retry veth_peer_name peer_name e =
      if not (is_exist e)
      then raise (caused "failed to make veth pair: %v" e)
      else do taken ← peer_exists peer_name; retry_if (taken && same veth_peer_name [])

  -- The rounds that are left.
  unfoldable pub veth_rounds : ℕ → Bytes → Bytes → ℕ → Bytes → W.Ns → Exec St (Bytes × Link)
  veth_rounds zero name veth_peer_name mtu mac host_ns =
      raise (message "failed to find a unique veth name")
  veth_rounds (suc rounds) name veth_peer_name mtu mac host_ns = do
    peer_name ← peer_name_of veth_peer_name
    rescue (do link ← make_veth_pair name peer_name mtu mac host_ns; pure (peer_name, link))
        (λ e. do
          retry veth_peer_name peer_name e
          veth_rounds rounds name veth_peer_name mtu mac host_ns)

  unfoldable pub make_veth : Bytes → Bytes → ℕ → Bytes → W.Ns → Exec St (Bytes × Link)
  make_veth = veth_rounds 10

  unfoldable pub rename_link : Bytes → Bytes → Exec St (Unit {0})
  rename_link cur_name new_name = do link ← W.link_by_name cur_name; W.link_set_name link new_name

  abbrev need : Option Link → Exec St Link
  need none = crash
  need (some l) = pure l

  -- The host's end is looked up and set up inside the namespace of the host.
  abbrev raise_host : Bytes → Exec (Option Link × St) (Unit {0})
  raise_host host_veth_name = do
    host_veth ← wrap "failed to lookup %q in %q: %v" (inside (W.link_by_name host_veth_name))
    assign (some host_veth)
    wrap "failed to set %q up: %v" (inside (W.link_set_up host_veth))
    ignore (
        inside
          (W.sysctl (codes "net/ipv6/conf/" ++ host_veth_name ++ codes "/accept_ra") (codes "0")))
    pure tt

  unfoldable pub setup_veth_with_name : Bytes → Bytes → ℕ → Bytes → W.Ns → Exec St (Link × Link)
  setup_veth_with_name cont_veth_name host_veth_name mtu cont_veth_mac host_ns = do
    (peer_name, cont_veth) ← make_veth cont_veth_name host_veth_name mtu cont_veth_mac host_ns
    found ← scoped none (W.do_in host_ns (λ _. raise_host peer_name))
    host_veth ← need found
    pure (host_veth, cont_veth)

  unfoldable pub setup_veth : Bytes → ℕ → Bytes → W.Ns → Exec St (Link × Link)
  setup_veth cont_veth_name mtu cont_veth_mac host_ns =
      setup_veth_with_name cont_veth_name [] mtu cont_veth_mac host_ns

  abbrev pub link_or_missing : Bytes → Exec St Link
  link_or_missing if_name =
      rescue (W.link_by_name if_name)
        (λ e. raise (not_found e (caused "failed to lookup %q: %v" e)))

  unfoldable pub del_link_by_name : Bytes → Exec St (Unit {0})
  del_link_by_name if_name = do
    iface ← link_or_missing if_name
    wrap "failed to delete %q: %v" (W.link_del iface.name)

  abbrev pub global_of : List IpNet → List IpNet
  global_of [] = []
  global_of (a ∷ more) =
      let rest = global_of more in if is_global_unicast a.ip then a ∷ rest else rest

  unfoldable pub del_link_by_name_addr : Bytes → Exec St (List IpNet)
  del_link_by_name_addr if_name = do
    iface ← link_or_missing if_name
    addrs ← wrap "failed to get IP addresses for %q: %v" (W.addr_list iface)
    wrap "failed to delete %q: %v" (W.link_del iface.name)
    pure (global_of addrs)

  abbrev stat_index : Option ℕ → Exec St ℕ
  stat_index none = raise (message "failed to find 'peer_ifindex' in ethtool stats")
  stat_index (some n) =
      if ltb 32767 n || n == 0 then raise (message "invalid 'peer_ifindex' %d") else pure n

  abbrev peer_by_ethtool : Bytes → Exec St ℕ
  peer_by_ethtool name = do
    wrap "failed to initialize ethtool: %v" W.new_ethtool
    deferring W.close_ethtool
        do stat ← wrap "failed to request ethtool stats: %v" (W.peer_stat name); stat_index stat

  unfoldable pub get_veth_peer_ifindex : Bytes → Exec St (Link × ℕ)
  get_veth_peer_ifindex if_name = do
    l ← wrap "could not look up %q: %v" (W.link_by_name if_name)
    if not (is_veth l.kind) then raise (message "interface %q was not a veth interface") else do
      peer_index ← if l.parent_index == 0 then peer_by_ethtool l.name else pure l.parent_index
      pure (l, peer_index)

  abbrev pub as_vxlan : Option Link → Option Link
  as_vxlan none = none
  as_vxlan (some l) = if is_vxlan l.kind then some l else none

  abbrev make_vxlan_by_shell : Bytes → Exec St Link
  make_vxlan_by_shell name = do
    runs (shell W)
        (codes "ip link add " ++ name ++ codes " type vxlan dstport 4789 dev eno1 external")
    l ← W.link_by_name name
    if not (is_vxlan l.kind) then raise (message "found the device %q but it's not a vxlan") else do
      runs (shell W) (codes "ip addr add 10.244.0.0/16 dev " ++ name)
      wrap "set up vxlan %q error, err: %v" (W.link_set_up l)
      pure l

  abbrev unless_there : Option Link → Exec St Link → Exec St Link
  unless_there (some l) m = pure l
  unless_there none m = m

  -- The default of the second argument is not read further on.
  unfoldable pub setup_vxlan : Bytes → ℕ → Exec St Link
  setup_vxlan vxlan_name mtu = do
    l ← ignore (W.link_by_name vxlan_name)
    unless_there (as_vxlan l) (make_vxlan_by_shell vxlan_name)

  unfoldable pub add_route : Option Ip × Mask → Option Ip → Link → Exec St (Unit {0})
  add_route ipn gw dev =
      W.route_add (record { link_index = dev.index; scope = universe; dst = ipn; gw = gw })

  unfoldable pub add_host_route : Option Ip × Mask → Option Ip → Link → Exec St (Unit {0})
  add_host_route ipn gw dev =
      W.route_add (record { link_index = dev.index; scope = host; dst = ipn; gw = gw })
