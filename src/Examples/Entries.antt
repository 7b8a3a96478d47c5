-- ===== src/Examples/Entries.antt =====
-- Examples of what `cmdAdd` leaves in the map of containers, over the host in memory.
use my_cni.Prelude.{
  ℕ, ◌≡◌, ◌≢◌, ap, refl, Bool, true, false, List, [], Option, some, ◌≤◌, ◌==◌, arith, length,
  if◌then◌else◌,
}
use my_cni.Text.{Bytes, same, join, split}
use my_cni.Net.{
  parse_cidr, cut_slash, dotted, itoa, parse_ip, kind, parse_dotted, octet, dtoi, ip_string, masked,
  atoi,
}
use my_cni.Exec.{Result, ok}
use my_cni.Exec.Keeps.{Keeps}
use my_cni.Bpf.{
  lxc_map_path, vxlan_map_path, get_key_value_from_lxc_map, create_lxc_map, create_pin_map_once,
  set_lxc_map, get_map_by_pinned_path,
}
use my_cni.Kernel.{Link, Interface, CniResult}
use my_cni.Kernel.Untouched.{Untouched}
use my_cni.Ifaces.{exec_add, exec_del, configure_iface, add_addresses, add_routes}
use my_cni.Links.{
  setup_veth, setup_veth_with_name, veth_rounds, make_veth_pair, random_veth_name, hex, make_veth,
}
use my_cni.Vxlan.{set_veth_pair_info_to_lxc_map, inet_ip_to_uint32, stuff8_byte}
use my_cni.Vxlan.Maps.{key_of_ip}
use my_cni.Vxlan.Setup.{setup_container_veth, get_container_veth, delete_routes, fresh_mac}
use my_cni.Vxlan.Plugin.{watch_mac}
use my_cni.Vxlan.Entries.{MapView, ComesToWrite, write, info, after, cmd_add-writes}
use my_cni.Examples.{no_v6}
use my_cni.Examples.Bpf.{pin_of}
use my_cni.Examples.World.{Host, world, idle, reply, conf, link_of, pod_ip}
use my_cni.Examples.Plugin.{
  args, net_conf, unmarshal, load_args, loads, layer3, untouched_by, host_bpf-IsLawful,
}

-- The pins and the map of containers.
abbrev map_untouched : Untouched world
map_untouched =
    untouched_by {View = List (Bytes × ℕ) × (Bytes → Option Bytes)} (λ b. true) (λ b. false)
      (λ maps x. (maps.pins, maps.tables 0))

map_view : MapView host_bpf-IsLawful 0 map_untouched
unfolding host_bpf-IsLawful
map_view = record {
  lxc_of = λ x. pin_of lxc_map_path x.0;
  vxlan_of = λ x. pin_of vxlan_map_path x.0;
  entry_of = λ x. x.1;
  lxc_is = λ s. refl;
  vxlan_is = λ s. refl;
  entry_is = λ s j. refl;
  other_put = λ s v k x ne.
      ap
        (λ (b : Bool). (
          s.maps.pins,
          λ j. if b then (if same k j then some x else s.maps.tables 0 j) else s.maps.tables 0 j,
        ))
        (other v ne);
}
  where
    other : (v : ℕ) → v ≢ 0 → (0 == v) ≡ false
    other v ne = ground arith

abbrev given : Host Bool
given = record idle { leased = true }

abbrev result : CniResult
result = record reply { interfaces = [] }

abbrev value : {A : Type 0} → A → Result A → A
value a (ok b) = b
value a r = a

abbrev no_interface : Interface
no_interface = record { name = []; mac = []; sandbox = [] }

abbrev linking : Result (Interface × Interface) × Host Bool
linking = setup_container_veth world tt args.if_name 1450 result given

abbrev ends : Interface × Interface
ends = value (no_interface, no_interface) linking.0

abbrev watching : Result Bytes × Host Bool
watching = watch_mac world 5 ends.0.name [] linking.1

abbrev finding : Result Link × Host Bool
finding = world.link_by_name ends.0.name watching.1

abbrev meeting : Result Link × Host Bool
meeting = get_container_veth world tt ends.1.name finding.1

abbrev no_link : Link
no_link = link_of [] 0

run : ComesToWrite world args reply given pod_ip 29
unfolding setup_container_veth setup_veth setup_veth_with_name make_veth veth_rounds make_veth_pair
    random_veth_name hex configure_iface add_addresses add_routes delete_routes fresh_mac watch_mac
    get_container_veth same join
run = record {
  res = reply;
  conf = conf;
  more = [];
  reads = refl;
  address = refl;
  mask = refl;
  netns = tt;
  opened = given;
  opens = refl;
  host_end = ends.0;
  pod_end = ends.1;
  linked = linking.1;
  links = refl;
  mac = value [] watching.0;
  watched = watching.1;
  watches = refl;
  host = value no_link finding.0;
  is_pair = refl;
  found = finding.1;
  finds = refl;
  pod = value no_link meeting.0;
  met = meeting.1;
  meets = refl;
}

keeps_maps : Keeps map_untouched.view (exec_del world net_conf.ipam_type args.stdin_data)
unfolding exec_del
keeps_maps = record { at = λ h. refl }

gives : exec_add world net_conf.ipam_type args.stdin_data idle ≡ (ok reply, given)
unfolding exec_add
gives = refl

apart : ◌≢◌ {A = ℕ} 1 0
apart e = omega arith

writes :
    (write map_view unmarshal load_args args net_conf reply idle given pod_ip 29 run loads layer3
      gives keeps_maps).0
    ≡ ok tt
unfolding run set_veth_pair_info_to_lxc_map create_lxc_map create_pin_map_once set_lxc_map
    get_map_by_pinned_path parse_cidr cut_slash dotted itoa parse_ip kind parse_dotted split octet
    dtoi inet_ip_to_uint32 ip_string stuff8_byte masked atoi setup_container_veth setup_veth
    setup_veth_with_name make_veth veth_rounds make_veth_pair random_veth_name hex configure_iface
    add_addresses add_routes delete_routes fresh_mac watch_mac get_container_veth same join
writes = refl

tunnel : host_bpf-IsLawful.pinned run.met vxlan_map_path ≡ some 1
unfolding run host_bpf-IsLawful same
tunnel = refl

there : world.bpf.path_exists lxc_map_path run.met ≡ true
unfolding run
there = refl

pin : host_bpf-IsLawful.pinned run.met lxc_map_path ≡ some 0
unfolding run host_bpf-IsLawful same
pin = refl

host_short : length run.host.hardware_addr ≤ 8
unfolding run
host_short = omega arith

pod_short : length run.pod.hardware_addr ≤ 8
unfolding run
pod_short = omega arith

cmd_add-writes_example :
    get_key_value_from_lxc_map world.bpf (key_of_ip pod_ip) (
      after map_view unmarshal load_args args net_conf reply idle given pod_ip 29 run loads layer3
        gives keeps_maps)
    ≡ (
      ok (
          info map_view unmarshal load_args args net_conf reply idle given pod_ip 29 run loads
            layer3 gives keeps_maps),
      after map_view unmarshal load_args args net_conf reply idle given pod_ip 29 run loads layer3
          gives keeps_maps,
    )
cmd_add-writes_example =
    cmd_add-writes map_view unmarshal load_args args net_conf reply idle given pod_ip 29 run loads
      layer3 gives keeps_maps 1 apart writes tunnel there pin (omega arith) (omega arith) host_short
      pod_short
