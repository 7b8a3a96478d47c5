-- ===== src/Examples/Plugin.antt =====
-- Examples of the main plugin and of what it does to links, over the host in memory.
use my_cni.Prelude.{
  ◌^◌, ◌/◌, ℕ, ◌+◌, ◌≤◌, ◌≡◌, ◌≢◌, refl, sym, ◌∙◌, List, [], ◌∷◌, some, true, false, Bool, ==_refl,
  arith, if◌then◌else◌, ◌==◌,
}
use my_cni.Text.{Bytes, codes, same, split, join}
use my_cni.Text.Equal.{same_refl}
use my_cni.Net.{
  v6, IpNet, Mask, ip_string, dotted, itoa, parse_cidr, cut_slash, parse_ip, kind, parse_dotted,
  octet, dtoi,
}
use my_cni.Exec.{Result, ok, hang, panic}
use my_cni.Bpf.{
  create_lxc_map, create_pin_map_once, set_lxc_map, set_vxlan_map, get_map_by_pinned_path,
  lxc_map_path,
}
use my_cni.Bpf.Entries.{IsLawful}
use my_cni.Vxlan.{
  inet_ip_to_uint32, stuff8_byte, set_veth_pair_info_to_lxc_map, set_vxlan_info_to_node_map,
  NetConf, K8sEnvArgs, load_net_conf,
}
use my_cni.Kernel.{World}
use my_cni.Kernel.Untouched.{Untouched, MapsUntouched}
use my_cni.Links.{
  is_global_unicast, setup_veth, setup_veth_with_name, veth_rounds, make_veth_pair,
  random_veth_name, hex, setup_vxlan, make_veth, del_link_by_name_addr,
}
use my_cni.Links.Attempts.{Counts, make_veth-attempts}
use my_cni.Ifaces.{add_addresses, add_routes, configure_iface, exec_add, exec_del}
use my_cni.Ifaces.Gateways.{reference, configure_iface-eq-reference}
use my_cni.Vxlan.Setup.{
  setup_container_veth, delete_routes, fresh_mac, get_container_veth, ipnet_string, set_arp,
  create_arp_entry, attach_bpf_to_veth, create_vxlan, attach_bpf_to_vxlan,
}
use my_cni.Tc.{attach_bpf_to_device, exist_clsact, add_clsact, has_text}
use my_cni.Vxlan.Plugin.{setup_pod, watch_mac, CmdArgs, cmd_add, cmd_del}
use my_cni.Vxlan.Teardown.{Visits, cmd_del-panics}
use my_cni.Examples.{no_v6}
use my_cni.Examples.Bpf.{Kernel, pin_of}
use my_cni.Examples.World.{Host, host_bpf, world, world_of, idle_with, idle, reply, link_of, pod_ip}

unfoldable pub host_bpf-IsLawful : IsLawful (host_bpf Bool)
host_bpf-IsLawful = record {
  entry = λ h m k. h.maps.tables m k;
  pinned = λ h p. pin_of p h.maps.pins;
  load_pin = λ h p m e. rw e;
  load_keeps = λ h p. ground arith;
  pin_sets = λ h p m o. rw (same_refl p) (refl, refl);
  put_sets = λ h m k v j o. rw (==_refl m);
  put_pins = λ h m k v p. refl;
  lookup_finds = λ h m k v size e l. rw e;
  iterate_keeps = λ h m a b. refl;
  batch_keeps = λ h m n ks j ne. ground arith;
  batch_clears = λ h m ks count j o. rw (==_refl m);
}

counts : Counts world
counts = record {
  count = λ h. h.requests;
  add = λ l h. refl;
  by_name = λ n. record { at = λ h. ground arith };
  del = λ n. record { at = λ h. refl };
  random = λ n. record { at = λ h. refl };
}

make_veth-attempts_example :
    counts.count (make_veth world (codes "e") [] 1450 [] tt idle).1
    ≤ counts.count idle + (if same ([]) [] then 10 else 1)
make_veth-attempts_example = make_veth-attempts counts (codes "e") [] 1450 [] tt idle

configure_iface-eq-reference_example :
    configure_iface world
      (codes "vxlan2")
      (record reply { interfaces = record { name = []; mac = []; sandbox = [] } ∷ [] })
    ≡ reference world
        (codes "vxlan2")
        (record reply { interfaces = record { name = []; mac = []; sandbox = [] } ∷ [] })
configure_iface-eq-reference_example =
    configure_iface-eq-reference world (codes "vxlan2")
      (record reply { interfaces = record { name = []; mac = []; sandbox = [] } ∷ [] })

abbrev pub args : CmdArgs
args = record {
  container_id = codes "c";
  netns = codes "/var/run/netns/p";
  if_name = codes "e";
  args = [];
  stdin_data = codes "{}";
}

abbrev pub net_conf : NetConf
net_conf = record {
  ipam_type = codes "mycni-ipam";
  cni_version = codes "1";
  podname = [];
  namespace = [];
}

abbrev pub unmarshal : Bytes → Result NetConf
unmarshal b = ok net_conf

abbrev pub load_args : Bytes → Result K8sEnvArgs
load_args b = ok (record { pod_namespace = []; pod_name = [] })

-- A view of the maps and of what the address plugin keeps.
abbrev pub untouched_by :
    {X View : Type 0} → (give take : X → X) → (Kernel → X → View) → Untouched (world_of give take)
untouched_by {X} {View} give take look = record {
  View = View;
  view = λ h. look h.maps h.leased;
  by_name = λ n. record { at = λ h. ground arith };
  add = λ l. record { at = λ h. refl };
  del = λ n. record { at = λ h. refl };
  set_up = λ l. record { at = λ h. refl };
  addr = λ l ip m. record { at = λ h. refl };
  ecmp = λ r. record { at = λ h. refl };
  route_del = λ r. record { at = λ h. refl };
  interface = λ n. record { at = λ h. refl };
  random = λ n. record { at = λ h. refl };
  sysctl = λ n v. record { at = λ h. refl };
  settle = λ n t. record { at = λ h. refl };
  output = λ c h. refl;
  get_ns = λ n. record { at = λ h. refl };
  close_ns = λ n. record { at = λ h. refl };
  do_in = λ n f k. k tt;
  print = λ r v. record { at = λ h. refl };
}

-- What the address plugin keeps.
abbrev pub untouched_of : {X : Type 0} → (give take : X → X) → Untouched (world_of give take)
untouched_of give take = untouched_by give take (λ maps x. x)

abbrev pub maps_untouched_of :
    {X : Type 0} (give take : X → X) → MapsUntouched (untouched_of give take)
maps_untouched_of {X} give take = record {
  load_pinned = λ p. record { at = λ h. refl };
  remove_memlock = record { at = λ h. refl };
  new_map = λ m. record { at = λ h. refl };
  pin = λ m p. record { at = λ h. refl };
  put = λ m k v. record { at = λ h. refl };
}

untouched : Untouched world
untouched = untouched_of (λ b. true) (λ b. false)

pub loads : load_net_conf unmarshal load_args args.stdin_data args.args ≡ ok net_conf
unfolding load_net_conf
loads = refl

pub layer3 : same net_conf.ipam_type [] ≡ false
unfolding same
layer3 = refl

pub adds :
    {X : Type 0} (give take : X → X) (x : X)
    → (cmd_add (world_of give take) unmarshal load_args args (idle_with x)).0 ≡ ok tt
unfolding cmd_add load_net_conf exec_add exec_del setup_pod setup_container_veth setup_veth
    setup_veth_with_name make_veth veth_rounds make_veth_pair random_veth_name hex configure_iface
    add_addresses add_routes delete_routes fresh_mac watch_mac get_container_veth ipnet_string
    set_veth_pair_info_to_lxc_map set_arp create_arp_entry attach_bpf_to_veth attach_bpf_to_device
    exist_clsact add_clsact has_text create_vxlan setup_vxlan attach_bpf_to_vxlan
    set_vxlan_info_to_node_map set_vxlan_map get_map_by_pinned_path same split ip_string dotted join
    itoa parse_cidr cut_slash parse_ip kind parse_dotted octet dtoi inet_ip_to_uint32 stuff8_byte
    create_lxc_map create_pin_map_once set_lxc_map
adds give take x = refl

pub ends_of :
    {X : Type 0} (give take : X → X) (x : X)
    → (cmd_add (world_of give take) unmarshal load_args args (idle_with x)).0 ≢ hang
ends_of give take x e = ok_hang (sym (adds give take x) ∙ e)
  where
    ok_hang : ¬ (◌≡◌ {A = Result (Unit {0})} (ok tt) hang)
    ok_hang e = cc

visits : Visits world host_bpf-IsLawful args.netns
unfolding host_bpf-IsLawful
visits = record {
  host_ns = tt;
  enter = λ h. h;
  leave = λ h. h;
  runs = λ f v h. refl;
  leave_entries = λ h m j. refl;
}

-- The pod's link and the entry of its address are there.
abbrev set_up : Host Bool
set_up = record idle { links = link_of (codes "e") 7 ∷ idle.links }

abbrev addresses : List (ℕ × Mask)
addresses = (pod_ip, record { ones = 29; bits = 32 }) ∷ []

netns_given : same args.netns [] ≡ false
unfolding same
netns_given = refl

pinned : host_bpf-IsLawful.pinned idle lxc_map_path ≡ some 0
unfolding host_bpf-IsLawful same
pinned = refl

-- A host whose links have one address, 2001:db8::1.
abbrev v6_address : ℕ
v6_address = 0x20010db8000000000000000000000001

abbrev v6_net : IpNet
v6_net = record { ip = v6 v6_address; mask = record { ones = 64; bits = 128 } }

abbrev v6_world : World
v6_world = record world { addr_list = λ l h. (ok (v6_net ∷ []), h) }

v6_visits : Visits v6_world host_bpf-IsLawful args.netns
unfolding host_bpf-IsLawful
v6_visits = record {
  host_ns = tt;
  enter = λ h. h;
  leave = λ h. h;
  runs = λ f v h. refl;
  leave_entries = λ h m j. refl;
}

v6_releases : exec_del v6_world net_conf.ipam_type args.stdin_data set_up ≡ (ok tt, set_up)
unfolding exec_del
v6_releases = refl

v6_deletes :
    del_link_by_name_addr v6_world args.if_name (v6_visits.enter set_up) ≡ (ok (v6_net ∷ []), idle)
unfolding del_link_by_name_addr is_global_unicast same v6_visits
v6_deletes = refl

unmapped : (v6_address / 2 ^ 32 == 0xffff) ≡ false
unmapped = refl

cmd_del-panics_example : (cmd_del v6_world unmarshal load_args args set_up).0 ≡ panic
cmd_del-panics_example =
    cmd_del-panics v6_world unmarshal load_args args net_conf set_up set_up v6_visits loads
      netns_given v6_releases v6_address (record { ones = 64; bits = 128 }) [] idle unmapped tt
      v6_deletes
