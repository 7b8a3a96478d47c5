-- ===== src/Vxlan/Plugin.antt =====
-- plugins/main/vxlan/main.go: the commands of the main plugin. The JSON decoder and the reader of CNI
-- arguments are parameters.
use my_cni.Prelude.{ℕ, zero, suc, List, [], ◌∷◌, Option, none, some, if◌then◌else◌}
use my_cni.Text.{Bytes, codes, split, same}
use my_cni.Net.{IpNet, Notation6, ip_string}
use my_cni.Exec.{
  Exec, Error, Result, link_not_found, message, pure, raise, lift, rescue, wrap, ignore, deferring,
  ◌>>=◌, ◌>>◌,
}
use my_cni.Bpf.{del_key_lxc_map}
use my_cni.Allocator.{IpConfig}
use my_cni.Kernel.{World, Link, Interface, CniResult, inside, assign, attempt}
use my_cni.Links.{mac_string, del_link_by_name_addr}
use my_cni.Ifaces.{exec_add, exec_del}
use my_cni.Vxlan.{
  NetConf, K8sEnvArgs, load_net_conf, inet_ip_to_uint32, set_veth_pair_info_to_lxc_map,
  set_vxlan_info_to_node_map,
}
use my_cni.Vxlan.Setup.{
  ipnet_string, last_part, veth_of, as_veth, setup_container_veth, get_container_veth, set_arp,
  attach_bpf_to_veth, create_vxlan, attach_bpf_to_vxlan,
}

-- `skel.CmdArgs`.
pub record CmdArgs : Type 0 where
  pub container_id : Bytes
  pub netns : Bytes
  pub if_name : Bytes
  pub args : Bytes
  pub stdin_data : Bytes

abbrev pub no_addresses : CniResult
no_addresses = record { interfaces = []; ips = []; routes = [] }

module _ (W : World) where
  abbrev St : Type 0
  St = W.bpf.State

  -- The rounds that are left; the address seen last.
  unfoldable pub watch_mac : ℕ → Bytes → Bytes → Exec St Bytes
  watch_mac zero name tmp_mac = pure tmp_mac
  watch_mac (suc rounds) name tmp_mac = do
    hostv ← W.link_by_name name
    watch_mac rounds name (mac_string hostv.hardware_addr)

  module _ ⦃n6 : Notation6⦄ where
    -- Behind the entry of the pod: ARP, the programs, the tunnel and its entry.
    abbrev pub connect_host :
        CmdArgs
        → Bytes
        → CniResult
        → IpConfig
        → Interface × Interface
        → Bytes
        → Link
        → Exec St (Unit {0})
    connect_host args cni_version result ip_conf (host_interface, container_interface) tmp_mac
          host_veth =
        do
          set_arp W (ip_string ip_conf.gateway) args.if_name tmp_mac
              (last_part (split b'/' args.netns))
          attach_bpf_to_veth W host_veth
          vxlan ← create_vxlan W (codes "vxlan2")
          attach_bpf_to_vxlan W vxlan
          set_vxlan_info_to_node_map W.bpf (veth_of vxlan)
          W.print_result (record result { interfaces = host_interface ∷ container_interface ∷ [] })
              cni_version

    -- Behind the interfaces.
    abbrev pub connect_pod :
        CmdArgs → Bytes → CniResult → IpConfig → W.Ns → Interface × Interface → Exec St (Unit {0})
    connect_pod args cni_version result ip_conf netns (host_interface, container_interface) = do
      tmp_mac ← watch_mac 5 host_interface.name []
      hostv ← W.link_by_name host_interface.name
      podv ← get_container_veth W netns container_interface.name
      host_veth ← as_veth W hostv
      ignore (
          set_veth_pair_info_to_lxc_map W.bpf (ipnet_string ip_conf.address ip_conf.mask)
            (veth_of host_veth) (veth_of podv))
      connect_host args cni_version result ip_conf (host_interface, container_interface) tmp_mac
          host_veth

    -- Behind the address plugin.
    unfoldable pub setup_pod : CmdArgs → Bytes → CniResult → Exec St (Unit {0})
    setup_pod args cni_version result = elim result.ips [
      | [] ↦ raise (message "IPAM plugin returned missing IP config")
      | ip_conf ∷ ips ↦ do
        netns ← wrap "failed to open netns %q: %v" (W.get_ns args.netns)
        deferring (W.close_ns netns) do
          interfaces ← setup_container_veth W netns args.if_name 1450 result
          connect_pod args cni_version result ip_conf netns interfaces
    ]

    abbrev pub with_addresses : CmdArgs → Bytes → W.Reply → Exec St (Unit {0})
    with_addresses args cni_version r = do
      ipam_res ← lift (W.new_result r)
      setup_pod args cni_version
          (record no_addresses { ips = ipam_res.ips; routes = ipam_res.routes })

    module _ (unmarshal : Bytes → Result NetConf) (load_args : Bytes → Result K8sEnvArgs) where
      -- The deferred deletion stands in front of all that follows the address plugin.
      unfoldable pub cmd_add : CmdArgs → Exec St (Unit {0})
      cmd_add args = do
        n ← lift (load_net_conf unmarshal load_args args.stdin_data args.args)
        if same n.ipam_type [] then setup_pod args n.cni_version no_addresses else do
          r ← exec_add W n.ipam_type args.stdin_data
          deferring (exec_del W n.ipam_type args.stdin_data) (with_addresses args n.cni_version r)

  unfoldable pub cmd_check : CmdArgs → Exec St (Unit {0})
  cmd_check args = pure tt

  module _ ⦃n6 : Notation6⦄ where
    -- The entries of the addresses; what a deletion returns is dropped.
    unfoldable pub delete_entries : List IpNet → Exec St (Unit {0})
    delete_entries [] = pure tt
    delete_entries (ipnet ∷ ipnets) = do
      ip ← lift (inet_ip_to_uint32 (ip_string (some ipnet.ip)))
      ignore (del_key_lxc_map W.bpf (record { ip = ip }))
      delete_entries ipnets

    -- No error, if the link is not there.
    abbrev pub unless_missing : Error → Exec (List IpNet × St) (Unit {0})
    unless_missing link_not_found = pure tt
    unless_missing e = raise e

    abbrev found_or : Error → Exec (List IpNet × St) (List IpNet)
    found_or e = do unless_missing e; pure []

    -- The body of the closure inside the pod's namespace.
    abbrev pub clean_up : Bytes → Exec (List IpNet × St) (Unit {0})
    clean_up if_name = do
      ipnets ← rescue (inside (del_link_by_name_addr W if_name)) found_or
      assign ipnets
      inside (delete_entries ipnets)

    abbrev pub error_if_any : List IpNet → Option Error → Exec St (Unit {0})
    error_if_any [] e = pure tt
    error_if_any (n ∷ ns) none = pure tt
    error_if_any (n ∷ ns) (some e) = raise e

    abbrev pub clean_ns : CmdArgs → Exec St (Unit {0})
    clean_ns args = do
      (e, ipnets) ← attempt [] (W.with_ns_path args.netns (λ _. clean_up args.if_name))
      error_if_any ipnets e

    module _ (unmarshal : Bytes → Result NetConf) (load_args : Bytes → Result K8sEnvArgs) where
      unfoldable pub cmd_del : CmdArgs → Exec St (Unit {0})
      cmd_del args = do
        n ← lift (load_net_conf unmarshal load_args args.stdin_data args.args)
        exec_del W n.ipam_type args.stdin_data
        if same args.netns [] then pure tt else clean_ns args
