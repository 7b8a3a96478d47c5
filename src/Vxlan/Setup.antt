-- ===== src/Vxlan/Setup.antt =====
-- plugins/main/vxlan/main.go: what the plugin does on the host besides the BPF maps. Pauses are left
-- out.
use my_cni.Prelude.{
  ℕ, zero, suc, ◌-◌, List, [], ◌∷◌, ◌++◌, Option, none, some, leb, ◌==◌, if◌then◌else◌,
}
use my_cni.Text.{Bytes, codes, same}
use my_cni.Net.{Ip, v4, Mask, Notation6, to4, masked, ip_string, itoa}
use my_cni.Exec.{Exec, Error, caused, pure, raise, crash, rescue, wrap, ◌>>=◌, ◌>>◌}
use my_cni.Tc.{
  runs, ingress, egress, attach_bpf_to_device, get_veth_ingress_path, get_vxlan_ingress_path,
  get_vxlan_egress_path,
}
use my_cni.Allocator.{IpConfig}
use my_cni.Kernel.{World, Link, Interface, CniResult, Route, Scope, shell, inside, assign, scoped}
use my_cni.Links.{is_veth, is_exist, mac_string, setup_veth, add_host_route, setup_vxlan}
use my_cni.Ifaces.{is_v4, configure_iface}
use my_cni.Vxlan.{Veth}

-- `ip.Mask(mask)`. An IPv4 address under a mask of sixteen bytes has the four bytes of its short form.
abbrev pub mask_ip : Option Ip → Mask → Option Ip
mask_ip none m = none
mask_ip (some ip) m = elim (to4 ip) [
  | some n ↦
      if m.bits == 32
      then some (masked (v4 n) m.ones)
      else if leb 96 m.ones
      then some (masked (v4 n) (m.ones - 96))
      else none
  | none ↦ if m.bits == 128 then some (masked ip m.ones) else none
]

-- `n.String()` of a `net.IPNet`.
unfoldable pub ipnet_string : ⦃n6 : Notation6⦄ → Option Ip → Mask → Bytes
ipnet_string none m = codes "<nil>"
ipnet_string (some ip) m = elim (to4 ip) [
  | some n ↦ ip_string (some ip) ++ b'/' ∷ itoa (if m.bits == 32 then m.ones else m.ones - 96)
  | none ↦ if m.bits == 128 then ip_string (some ip) ++ b'/' ∷ itoa m.ones else codes "<nil>"
]

-- The last part of a list that `strings.Split` made.
abbrev pub last_part : List Bytes → Bytes
last_part [] = []
last_part (p ∷ []) = p
last_part (p ∷ q ∷ ps) = last_part (q ∷ ps)

-- The ends of a pair as the program's maps have them.
abbrev pub veth_of : Link → Veth
veth_of l = record { index = l.index; hardware_addr = l.hardware_addr }

abbrev no_interface : Interface
no_interface = record { name = []; mac = []; sandbox = [] }

module _ (W : World) where
  abbrev St : Type 0
  St = W.bpf.State

  -- `l.(*netlink.Veth)`.
  abbrev pub as_veth : Link → Exec St Link
  as_veth l = if is_veth l.kind then pure l else crash

  abbrev pub subnet_route : ℕ → IpConfig → Route
  subnet_route index ipc = record {
    link_index = index;
    scope = Scope.link;
    dst = (mask_ip ipc.address ipc.mask, ipc.mask);
    gw = none;
  }

  -- The routes that came with the addresses are deleted.
  unfoldable pub delete_routes : ℕ → List IpConfig → Exec St (Unit {0})
  delete_routes index [] = pure tt
  delete_routes index (ipc ∷ ips) = do
    wrap "failed to delete route %v: %v" (W.route_del (subnet_route index ipc))
    delete_routes index ips

  abbrev pub host_end : Link → Interface
  host_end l = record { name = l.name; mac = mac_string l.hardware_addr; sandbox = [] }

  abbrev pub container_end : W.Ns → Link → Interface
  container_end netns l = record {
    name = l.name;
    mac = mac_string l.hardware_addr;
    sandbox = W.ns_path netns;
  }

  -- The body of the closure inside the pod's namespace.
  abbrev pub in_container :
      W.Ns → Bytes → ℕ → CniResult → W.Ns → Exec ((Interface × Interface) × St) (Unit {0})
  in_container netns if_name mtu pr host_ns = do
    (host_veth, cont_veth0) ← inside (setup_veth W if_name mtu [] host_ns)
    let host_interface = host_end host_veth
    let container_interface = container_end netns cont_veth0
    assign (host_interface, container_interface)
    cont_veth ← wrap "failed to look up %q: %v" (inside (W.interface_by_name if_name))
    inside (
        configure_iface W if_name
          (record pr { interfaces = host_interface ∷ container_interface ∷ [] }))
    inside (delete_routes cont_veth pr.ips)

  -- The rounds that are left of the wait for another address of the host's end.
  unfoldable pub fresh_mac : ℕ → Interface → Exec St Interface
  fresh_mac zero host_interface = pure host_interface
  fresh_mac (suc rounds) host_interface = do
    repeat ← W.link_by_name host_interface.name
    let curr_mac = mac_string repeat.hardware_addr
    if same curr_mac host_interface.mac
        then fresh_mac rounds host_interface
        else pure (record host_interface { mac = curr_mac })

  -- The two interfaces are also those of the result: `pr` points to them.
  unfoldable pub setup_container_veth :
      W.Ns → Bytes → ℕ → CniResult → Exec St (Interface × Interface)
  setup_container_veth netns if_name mtu pr = do
    (host_interface, container_interface) ←
        scoped (no_interface, no_interface) (W.do_in netns (in_container netns if_name mtu pr))
    host_interface' ← fresh_mac 10 host_interface
    pure (host_interface', container_interface)

  abbrev full_mask : Option Ip → Mask
  full_mask address =
      if is_v4 address then record { ones = 32; bits = 32 } else record { ones = 128; bits = 128 }

  abbrev accept_exist : Error → Exec St (Unit {0})
  accept_exist e =
      if is_exist e then pure tt else raise (caused "failed to add route on host: %v" e)

  unfoldable pub setup_host_addresses : Link → List IpConfig → Exec St (Unit {0})
  setup_host_addresses h [] = pure tt
  setup_host_addresses h (ipc ∷ ips) = do
    let mask = full_mask ipc.address
    wrap "failed to add IP addr (%#v) to veth: %v" (W.addr_add h ipc.gateway mask)
    rescue (add_host_route W (ipc.address, mask) none h) accept_exist
    setup_host_addresses h ips

  unfoldable pub setup_host_veth : Bytes → CniResult → Exec St (Unit {0})
  setup_host_veth veth_name pr = do
    h ← wrap "failed to lookup %q: %v" (W.link_by_name veth_name)
    setup_host_addresses h pr.ips

  abbrev pub need_veth : Option Link → Exec St Link
  need_veth none = crash
  need_veth (some l) = pure l

  abbrev pub veth_inside : Bytes → Exec (Option Link × St) (Unit {0})
  veth_inside if_name = do
    tmp ← inside (W.link_by_name if_name)
    pod_veth ← inside (as_veth tmp)
    assign (some pod_veth)

  -- A closure that ends well has set the link; its reader would not survive a nil one.
  unfoldable pub get_container_veth : W.Ns → Bytes → Exec St Link
  get_container_veth netns if_name = do
    found ← scoped none (W.do_in netns (λ _. veth_inside if_name))
    need_veth found

  unfoldable pub create_arp_entry : (ip mac dev ns_name : Bytes) → Exec St (Unit {0})
  create_arp_entry ip mac dev ns_name = runs (shell W) (
      codes "ip netns exec "
      ++ (ns_name ++ (codes " arp -s " ++ (ip ++ (codes " " ++ (mac ++ (codes " -i " ++ dev)))))))

  unfoldable pub delete_arp_entry : (ip dev : Bytes) → Exec St (Unit {0})
  delete_arp_entry ip dev = runs (shell W) (codes "arp -d " ++ (ip ++ (codes " -i " ++ dev)))

  unfoldable pub set_arp : (gateway_ip device_name mac ns_name : Bytes) → Exec St (Unit {0})
  set_arp gateway_ip device_name mac ns_name = create_arp_entry gateway_ip mac device_name ns_name

  unfoldable pub attach_bpf_to_veth : Link → Exec St (Unit {0})
  attach_bpf_to_veth l = attach_bpf_to_device (shell W) l.name get_veth_ingress_path ingress

  unfoldable pub create_vxlan : Bytes → Exec St Link
  create_vxlan dev = setup_vxlan W dev 1500

  unfoldable pub attach_bpf_to_vxlan : Link → Exec St (Unit {0})
  attach_bpf_to_vxlan l = do
    attach_bpf_to_device (shell W) l.name get_vxlan_ingress_path ingress
    attach_bpf_to_device (shell W) l.name get_vxlan_egress_path egress
