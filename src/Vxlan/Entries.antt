-- ===== src/Vxlan/Entries.antt =====
-- What `cmdAdd` leaves in the map of containers.
use my_cni.Prelude.{
  ℕ, ◌≡◌, ◌≢◌, refl, sym, ◌∙◌, ap, true, false, List, [], ◌∷◌, Option, some, ◌<◌, ◌≤◌, ◌^◌, arith,
  length,
}
use my_cni.Text.{Bytes, same}
use my_cni.Text.Equal.{same_refl}
use my_cni.Net.{v4, Notation6, ip_string}
use my_cni.Exec.{Result, ok, finish}
use my_cni.Exec.Keeps.{Keeps, KeepsWhere, KeepsWhere-all, KeepsWhere-bind, finish-Keeps}
use my_cni.Utils.Subnet.{cidr_text}
use my_cni.Bpf.{
  word, EndpointMapInfo, info_bytes, lxc_map_path, vxlan_map_path, get_map_by_pinned_path,
  set_vxlan_map, get_key_value_from_lxc_map,
}
use my_cni.Bpf.Entries.{IsLawful, set_lem, get_lem}
use my_cni.Allocator.{IpConfig}
use my_cni.Kernel.{World, Link, veth, Interface, CniResult}
use my_cni.Kernel.Untouched.{Untouched}
use my_cni.Ifaces.{exec_add, exec_del}
use my_cni.Vxlan.{
  NetConf, K8sEnvArgs, load_net_conf, Veth, set_veth_pair_info_to_lxc_map,
  set_vxlan_info_to_node_map,
}
use my_cni.Vxlan.Maps.{key_of_ip, info_of_links, writes_info}
use my_cni.Vxlan.Setup.{veth_of, ipnet_string, setup_container_veth, get_container_veth}
use my_cni.Vxlan.Plugin.{
  CmdArgs, watch_mac, connect_host, connect_pod, setup_pod, with_addresses, cmd_add,
}
use my_cni.Vxlan.Untouched.{
  set_arp-Keeps, attach_bpf_to_veth-Keeps, create_vxlan-Keeps, attach_bpf_to_vxlan-Keeps,
}

-- A view of the host that shows the two pins and the entries of the map `m`, and that only a write to
-- this map or a pin changes.
pub record MapView {W : World} (L : IsLawful W.bpf) (m : W.bpf.Map) (U : Untouched W) : Type 0 where
  pub lxc_of : U.View → Option W.bpf.Map
  pub vxlan_of : U.View → Option W.bpf.Map
  pub entry_of : U.View → Bytes → Option Bytes
  pub lxc_is : (s : W.bpf.State) → lxc_of (U.view s) ≡ L.pinned s lxc_map_path
  pub vxlan_is : (s : W.bpf.State) → vxlan_of (U.view s) ≡ L.pinned s vxlan_map_path
  pub entry_is : (s : W.bpf.State) (j : Bytes) → entry_of (U.view s) j ≡ L.entry s m j
  pub other_put :
      (s : W.bpf.State) (v : W.bpf.Map) (k x : Bytes)
      → v ≢ m
      → U.view (W.bpf.put v k x s).1 ≡ U.view s

module _ {W : World} {L : IsLawful W.bpf} {m : W.bpf.Map} {U : Untouched W} (V : MapView L m U)
    ⦃n6 : Notation6⦄ where
  -- The map of the tunnel is another one.
  Apart : W.bpf.Map → U.View → Type 0
  Apart v x = V.vxlan_of x ≡ some v

  set_vxlan_info-KeepsWhere :
      (v : W.bpf.Map)
      → v ≢ m
      → (l : Veth) → KeepsWhere U.view (Apart v) (set_vxlan_info_to_node_map W.bpf l)
  unfolding Apart set_vxlan_info_to_node_map set_vxlan_map get_map_by_pinned_path
  set_vxlan_info-KeepsWhere v ne l = record {
    at =
        λ s p. rw (L.load_pin s vxlan_map_path v (sym (V.vxlan_is s) ∙ p)) (V.other_put s v _ _ ne);
  }

  connect_host-KeepsWhere :
      (v : W.bpf.Map)
      → v ≢ m
      → (args : CmdArgs) (version : Bytes) (result : CniResult) (conf : IpConfig)
        (ends : Interface × Interface) (mac : Bytes) (host : Link)
      → KeepsWhere U.view (Apart v) (connect_host W args version result conf ends mac host)
  connect_host-KeepsWhere v ne args version result conf (h, c) mac host =
      KeepsWhere-bind _ _ (KeepsWhere-all _ (set_arp-Keeps U _ _ _ _)) (λ a.
        KeepsWhere-bind _ _ (KeepsWhere-all _ (attach_bpf_to_veth-Keeps U host)) (λ b.
          KeepsWhere-bind _ _ (KeepsWhere-all _ (create_vxlan-Keeps U _)) (λ x.
            KeepsWhere-bind _ _ (KeepsWhere-all _ (attach_bpf_to_vxlan-Keeps U x)) (λ d.
              KeepsWhere-bind _ _ (set_vxlan_info-KeepsWhere v ne (veth_of x))
                (λ e. KeepsWhere-all _ (U.print _ version))))))

-- A run of `cmdAdd` from the address plugin's reply up to the write for the pod: what each call on the
-- way returned. The pod's address is the first one, an IPv4 address.
pub record ComesToWrite (W : World) ⦃n6 : Notation6⦄ (args : CmdArgs) (r : W.Reply)
    (given : W.bpf.State) (n ones : ℕ) : Type 0 where
  pub res : CniResult
  pub conf : IpConfig
  pub more : List IpConfig
  pub reads : W.new_result r ≡ ok (record res { ips = conf ∷ more })
  pub address : conf.address ≡ some (v4 n)
  pub mask : conf.mask ≡ record { ones = ones; bits = 32 }
  pub netns : W.Ns
  pub opened : W.bpf.State
  pub opens : W.get_ns args.netns given ≡ (ok netns, opened)
  pub host_end : Interface
  pub pod_end : Interface
  pub linked : W.bpf.State
  pub links :
      setup_container_veth W netns args.if_name 1450
        (record res { interfaces = []; ips = conf ∷ more })
        opened
      ≡ (ok (host_end, pod_end), linked)
  pub mac : Bytes
  pub watched : W.bpf.State
  pub watches : watch_mac W 5 host_end.name [] linked ≡ (ok mac, watched)
  pub host : Link
  pub is_pair : host.kind ≡ veth
  pub found : W.bpf.State
  pub finds : W.link_by_name host_end.name watched ≡ (ok host, found)
  pub pod : Link
  pub met : W.bpf.State
  pub meets : get_container_veth W netns pod_end.name found ≡ (ok pod, met)

module _ {W : World} {L : IsLawful W.bpf} {m : W.bpf.Map} {U : Untouched W} (V : MapView L m U)
    ⦃n6 : Notation6⦄ (unmarshal : Bytes → Result NetConf) (load_args : Bytes → Result K8sEnvArgs)
    (args : CmdArgs) (c : NetConf) (r : W.Reply) (s given : W.bpf.State) (n ones : ℕ)
    (run : ComesToWrite W args r given n ones)
    (loads : load_net_conf unmarshal load_args args.stdin_data args.args ≡ ok c)
    (layer3 : same c.ipam_type [] ≡ false)
    (gives : exec_add W c.ipam_type args.stdin_data s ≡ (ok r, given))
    (keeps_maps : Keeps U.view (exec_del W c.ipam_type args.stdin_data)) where
  -- The write for the pod.
  abbrev pub write : Result (Unit {0}) × W.bpf.State
  write =
      set_veth_pair_info_to_lxc_map W.bpf (cidr_text n ones) (veth_of run.host) (veth_of run.pod)
        run.met

  abbrev result : CniResult
  result = record run.res { interfaces = []; ips = run.conf ∷ run.more }

  abbrev pub info : EndpointMapInfo
  info = info_of_links (veth_of run.host) (veth_of run.pod)

  abbrev pub after : W.bpf.State
  after = (cmd_add W unmarshal load_args args s).1

  abbrev connecting : Result (Unit {0}) × W.bpf.State
  connecting =
      connect_pod W args c.cni_version result run.conf run.netns (run.host_end, run.pod_end)
        run.linked

  to_deferred :
      cmd_add W unmarshal load_args args s
      ≡ finish
          (exec_del W c.ipam_type args.stdin_data)
          (with_addresses W args c.cni_version r given)
  unfolding cmd_add
  to_deferred = rw (loads, layer3, gives)

  to_connecting :
      with_addresses W args c.cni_version r given ≡ finish (W.close_ns run.netns) connecting
  unfolding setup_pod
  to_connecting = rw (run.reads, run.opens, run.links)

  view_connecting : U.view after ≡ U.view connecting.1
  view_connecting =
      ap (λ q. U.view q.1) to_deferred
      ∙ finish-Keeps (exec_del W c.ipam_type args.stdin_data) _ _ keeps_maps
      ∙ ap (λ q. U.view q.1) to_connecting
      ∙ finish-Keeps (W.close_ns run.netns) connecting.0 connecting.1 (U.close_ns run.netns)

  module _ (v : W.bpf.Map) (apart : v ≢ m) (writes : write.0 ≡ ok tt)
      (tunnel : L.pinned run.met vxlan_map_path ≡ some v)
      (there : W.bpf.path_exists lxc_map_path run.met ≡ true)
      (pin : L.pinned run.met lxc_map_path ≡ some m) (address : n < 2 ^ 32) (le : ones ≤ 32)
      (host_short : length run.host.hardware_addr ≤ 8)
      (pod_short : length run.pod.hardware_addr ≤ 8) where
    written : write ≡ (ok tt, write.1)
    written = ap (λ q. (q, write.1)) writes

    text : ipnet_string run.conf.address run.conf.mask ≡ cidr_text n ones
    unfolding ipnet_string ip_string
    text = rw (run.address, run.mask)

    to_host :
        connecting
        ≡ connect_host W args c.cni_version result run.conf
            (run.host_end, run.pod_end)
            run.mac
            run.host
            write.1
    to_host = rw (run.watches, run.finds, run.meets, run.is_pair, text, written)

    put_is : write ≡ W.bpf.put m (word n) (info_bytes info) run.met
    put_is =
        writes_info L run.met m there pin n ones address le (veth_of run.host) (veth_of run.pod)
          host_short pod_short
        ∙ set_lem L run.met m (key_of_ip n) info pin

    pins : (p : Bytes) → L.pinned write.1 p ≡ L.pinned run.met p
    pins p = ap (λ q. L.pinned q.1 p) put_is ∙ L.put_pins run.met m (word n) (info_bytes info) p

    entry : L.entry write.1 m (word n) ≡ some (info_bytes info)
    entry =
        ap (λ q. L.entry q.1 m (word n)) put_is
        ∙ L.put_sets run.met m (word n) (info_bytes info) (word n)
            (ap (λ q. q.0) (sym put_is) ∙ writes)
        ∙ rw (same_refl (word n)) refl

    view_after : U.view after ≡ U.view write.1
    unfolding Apart
    view_after =
        view_connecting
        ∙ ap (λ q. U.view q.1) to_host
        ∙ (connect_host-KeepsWhere V v apart args c.cni_version result run.conf
              (run.host_end, run.pod_end) run.mac run.host).at
            write.1 (V.vxlan_is write.1 ∙ pins vxlan_map_path ∙ tunnel)

    -- Where `cmdAdd` comes to the write for the pod, whose address is IPv4, with the two maps pinned,
    -- the tunnel's another than that of containers, and link addresses of at most eight bytes, and the
    -- write goes well, then whatever the rest of the command returns, a lookup of the pod's address
    -- behind the command gives the two ends of its link, unless the deferred call of the address
    -- plugin changes the maps.
    pub cmd_add-writes : get_key_value_from_lxc_map W.bpf (key_of_ip n) after ≡ (ok info, after)
    cmd_add-writes =
        get_lem L after m (key_of_ip n) info
          (sym (V.lxc_is after)
            ∙ ap V.lxc_of view_after
            ∙ V.lxc_is write.1
            ∙ pins lxc_map_path
            ∙ pin)
          (record { lxc = omega arith; pod = omega arith })
          (sym (V.entry_is after (word n))
            ∙ ap (λ x. V.entry_of x (word n)) view_after
            ∙ V.entry_is write.1 (word n)
            ∙ entry)
