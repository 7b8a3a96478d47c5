-- ===== src/Vxlan/Untouched.antt =====
-- What the plugin does for a pod leaves the rest of the host alone.
use my_cni.Prelude.{
  ℕ, zero, suc, Option, none, some, List, [], ◌∷◌, Bool, true, false, ◌≡◌, if◌then◌else◌,
}
use my_cni.Text.{Bytes, same}
use my_cni.Net.{Notation6}
use my_cni.Exec.{Exec}
use my_cni.Exec.Keeps.{
  Keeps, Keeps-lift, Keeps-if, Keeps-pure, Keeps-wrap, Keeps-then, Keeps-bind, keeps_rules,
}
use my_cni.Tc.{Direction, attach_bpf_to_device, exist_clsact, add_clsact, unless}
use my_cni.Bpf.{
  MapSpec, get_map_by_pinned_path, create_map, create_pinned, put_at, lxc_map_path,
  create_pin_map_once, create_lxc_map, set_lxc_map, set_vxlan_map,
}
use my_cni.Allocator.{IpConfig}
use my_cni.Kernel.{World, Link, Interface, CniResult, shell}
use my_cni.Kernel.Untouched.{
  Untouched, MapsUntouched, Keeps-inside, Keeps-assign, Keeps-wrap_inside, untouched_rules,
  runs-Keeps, shows-Keeps,
}
use my_cni.Links.{mac_string, setup_veth}
use my_cni.Ifaces.{configure_iface}
use my_cni.Links.Untouched.{setup_veth-Keeps, setup_vxlan-Keeps}
use my_cni.Ifaces.Untouched.{configure_iface-Keeps}
use my_cni.Vxlan.{Veth, set_veth_pair_info_to_lxc_map, set_vxlan_info_to_node_map}
use my_cni.Vxlan.Setup.{
  host_end, container_end, as_veth, delete_routes, in_container, fresh_mac, setup_container_veth,
  need_veth, veth_inside, get_container_veth, create_arp_entry, set_arp, attach_bpf_to_veth,
  create_vxlan, attach_bpf_to_vxlan,
}
use my_cni.Vxlan.Plugin.{CmdArgs, watch_mac, connect_pod, setup_pod, with_addresses}

module _ {W : World} (U : Untouched W) where
  delete_routes-Keeps : (i : ℕ) (ips : List IpConfig) → Keeps U.view (delete_routes W i ips)
  unfolding delete_routes
  delete_routes-Keeps i [] = search keeps_rules
  delete_routes-Keeps i (ipc ∷ ips) =
      Keeps-then _ _ (Keeps-wrap _ _ (U.route_del _)) (delete_routes-Keeps i ips)

  in_container-Keeps :
      (ns : W.Ns) (n : Bytes) (mtu : ℕ) (pr : CniResult) (h : W.Ns)
      → Keeps
          (λ (p : (Interface × Interface) × W.bpf.State). U.view p.1)
          (in_container W ns n mtu pr h)
  in_container-Keeps ns n mtu pr h =
      Keeps-bind _ _ (Keeps-inside (setup_veth W n mtu [] h) (setup_veth-Keeps U n mtu [] h)) (λ p.
        Keeps-then _ _ (Keeps-assign U.view (host_end W p.0, container_end W ns p.1)) (
          Keeps-bind _ _ (Keeps-wrap_inside _ (W.interface_by_name n) (U.interface n)) (λ i.
            Keeps-then _ _
              (Keeps-inside (configure_iface W n (with_ends pr p))
                (configure_iface-Keeps U n (with_ends pr p)))
              (Keeps-inside (delete_routes W i pr.ips) (delete_routes-Keeps i pr.ips)))))
    where
      with_ends : CniResult → Link × Link → CniResult
      with_ends r p = record r { interfaces = host_end W p.0 ∷ container_end W ns p.1 ∷ [] }

  fresh_mac-Keeps : (rounds : ℕ) (i : Interface) → Keeps U.view (fresh_mac W rounds i)
  unfolding fresh_mac
  fresh_mac-Keeps zero i = search keeps_rules
  fresh_mac-Keeps (suc rounds) i = Keeps-bind _ _ (U.by_name i.name) (λ l.
      Keeps-if (same (mac_string l.hardware_addr) i.mac) _ _ (fresh_mac-Keeps rounds i)
        (Keeps-pure _))

  setup_container_veth-Keeps :
      (ns : W.Ns) (n : Bytes) (mtu : ℕ) (pr : CniResult)
      → Keeps U.view (setup_container_veth W ns n mtu pr)
  unfolding setup_container_veth
  setup_container_veth-Keeps ns n mtu pr =
      search (untouched_rules, U.do_in, in_container-Keeps, fresh_mac-Keeps) depth 10

  as_veth-Keeps : (l : Link) → Keeps U.view (as_veth W l)
  as_veth-Keeps l = search keeps_rules

  need_veth-Keeps : (o : Option Link) → Keeps U.view (need_veth W o)
  need_veth-Keeps none = search keeps_rules
  need_veth-Keeps (some l) = search keeps_rules

  veth_inside-Keeps :
      (n : Bytes) → Keeps (λ (p : Option Link × W.bpf.State). U.view p.1) (veth_inside W n)
  veth_inside-Keeps n = Keeps-bind _ _ (Keeps-inside (W.link_by_name n) (U.by_name n)) (λ l.
      Keeps-bind _ _ (Keeps-inside (as_veth W l) (as_veth-Keeps l))
        (λ v. Keeps-assign U.view (some v)))

  get_container_veth-Keeps : (ns : W.Ns) (n : Bytes) → Keeps U.view (get_container_veth W ns n)
  unfolding get_container_veth
  get_container_veth-Keeps ns n =
      search (untouched_rules, U.do_in, veth_inside-Keeps, need_veth-Keeps) depth 10

  pub set_arp-Keeps : (ip d m n : Bytes) → Keeps U.view (set_arp W ip d m n)
  unfolding set_arp create_arp_entry
  set_arp-Keeps ip d m n = runs-Keeps U _

  unless-Keeps :
      (b : Bool) (m : Exec W.bpf.State (Unit {0}))
      → Keeps U.view m
      → Keeps U.view (unless (shell W) b m)
  unless-Keeps true m k = search keeps_rules
  unless-Keeps false m k = k

  attach_bpf_to_device-Keeps :
      (d p : Bytes) (dir : Direction) → Keeps U.view (attach_bpf_to_device (shell W) d p dir)
  unfolding attach_bpf_to_device exist_clsact add_clsact
  attach_bpf_to_device-Keeps d p dir =
      search (keeps_rules, unless-Keeps, shows-Keeps U, runs-Keeps U) depth 10

  pub attach_bpf_to_veth-Keeps : (l : Link) → Keeps U.view (attach_bpf_to_veth W l)
  unfolding attach_bpf_to_veth
  attach_bpf_to_veth-Keeps l = attach_bpf_to_device-Keeps _ _ _

  pub attach_bpf_to_vxlan-Keeps : (l : Link) → Keeps U.view (attach_bpf_to_vxlan W l)
  unfolding attach_bpf_to_vxlan
  attach_bpf_to_vxlan-Keeps l = search (keeps_rules, attach_bpf_to_device-Keeps)

  pub create_vxlan-Keeps : (d : Bytes) → Keeps U.view (create_vxlan W d)
  unfolding create_vxlan
  create_vxlan-Keeps d = setup_vxlan-Keeps U d 1500

  watch_mac-Keeps : (rounds : ℕ) (n m : Bytes) → Keeps U.view (watch_mac W rounds n m)
  unfolding watch_mac
  watch_mac-Keeps zero n m = search keeps_rules
  watch_mac-Keeps (suc rounds) n m =
      Keeps-bind _ _ (U.by_name n) (λ l. watch_mac-Keeps rounds n (mac_string l.hardware_addr))

  module _ (M : MapsUntouched U) where
    get_map-Keeps : (p : Bytes) → Keeps U.view (get_map_by_pinned_path W.bpf p)
    unfolding get_map_by_pinned_path
    get_map-Keeps p = M.load_pinned p

    create_map-Keeps : (m : MapSpec) → Keeps U.view (create_map W.bpf m)
    unfolding create_map
    create_map-Keeps m = search (keeps_rules, M.remove_memlock, M.new_map)

    create_pinned-Keeps : (p : Bytes) (m : MapSpec) → Keeps U.view (create_pinned W.bpf p m)
    create_pinned-Keeps p m = search (keeps_rules, create_map-Keeps, M.pin)

    once :
        (p : Bytes) (m : MapSpec) (s : W.bpf.State) (b : Bool)
        → U.view (if b then get_map_by_pinned_path W.bpf p s else create_pinned W.bpf p m s).1
          ≡ U.view s
    once p m s true = (get_map-Keeps p).at s
    once p m s false = (create_pinned-Keeps p m).at s

    create_lxc_map-Keeps : Keeps U.view (create_lxc_map W.bpf)
    unfolding create_lxc_map create_pin_map_once
    create_lxc_map-Keeps = record {
      at = λ s. once lxc_map_path _ s (W.bpf.path_exists lxc_map_path s);
    }

    put_at-Keeps : (p k v : Bytes) → Keeps U.view (put_at W.bpf p k v)
    put_at-Keeps p k v = search (keeps_rules, get_map-Keeps, M.put)

    module _ ⦃n6 : Notation6⦄ where
      set_veth_pair_info-Keeps :
          (c : Bytes) (h n : Veth) → Keeps U.view (set_veth_pair_info_to_lxc_map W.bpf c h n)
      unfolding set_veth_pair_info_to_lxc_map set_lxc_map
      set_veth_pair_info-Keeps c h n =
          search (keeps_rules, create_lxc_map-Keeps, put_at-Keeps) depth 16

    set_vxlan_info-Keeps : (v : Veth) → Keeps U.view (set_vxlan_info_to_node_map W.bpf v)
    unfolding set_vxlan_info_to_node_map set_vxlan_map
    set_vxlan_info-Keeps v = put_at-Keeps _ _ _

    module _ ⦃n6 : Notation6⦄ (args : CmdArgs) (version : Bytes) where
      connect_pod-Keeps :
          (result : CniResult) (conf : IpConfig) (ns : W.Ns) (ends : Interface × Interface)
          → Keeps U.view (connect_pod W args version result conf ns ends)
      connect_pod-Keeps result conf ns (h, c) =
          search
            (
              keeps_rules, watch_mac-Keeps, U.by_name, get_container_veth-Keeps, as_veth-Keeps,
              set_veth_pair_info-Keeps, set_arp-Keeps, attach_bpf_to_veth-Keeps, create_vxlan-Keeps,
              attach_bpf_to_vxlan-Keeps, set_vxlan_info-Keeps, U.print,
            )
            depth 24

      setup_first :
          (result : CniResult) (ips : List IpConfig)
          → Keeps U.view (setup_pod W args version (record result { ips = ips }))
      unfolding setup_pod
      setup_first result [] = search keeps_rules
      setup_first result (conf ∷ ips) =
          search (keeps_rules, U.get_ns, U.close_ns, setup_container_veth-Keeps, connect_pod-Keeps)
            depth 10

      pub setup_pod-Keeps : (result : CniResult) → Keeps U.view (setup_pod W args version result)
      setup_pod-Keeps result = setup_first result result.ips

      -- All that follows the address plugin.
      pub with_addresses-Keeps : (r : W.Reply) → Keeps U.view (with_addresses W args version r)
      with_addresses-Keeps r =
          Keeps-bind _ _ (Keeps-lift (W.new_result r))
            (λ res. setup_first (record res { interfaces = [] }) res.ips)
