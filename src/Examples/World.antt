-- ===== src/Examples/World.antt =====
-- A host in memory, for examples: its links are one list, its namespaces share them, and what the
-- address plugin keeps is of any type.
use my_cni.Prelude.{ℕ, ◌+◌, Bool, true, false, List, [], ◌∷◌, Option, none, some, if◌then◌else◌}
use my_cni.Text.{Bytes, codes, same}
use my_cni.Net.{v4}
use my_cni.Exec.{Exec, Result, ok, err, link_not_found, already_exist}
use my_cni.Bpf.{Ebpf}
use my_cni.Allocator.{IpConfig}
use my_cni.Kernel.{World, Link, veth, vxlan, NewLink, new_veth, new_vxlan, CniResult}
use my_cni.Examples.Bpf.{Kernel, kernel, start}

pub record Host (X : Type 0) : Type 0 where
  pub maps : Kernel
  pub links : List Link
  pub requests : ℕ
  pub leased : X
  pub printed : List CniResult

module _ {A X : Type 0} where
  abbrev with_maps : Host X → Result A × Kernel → Result A × Host X
  with_maps h (r, k) = (r, record h { maps = k })

  abbrev on_maps : Exec Kernel A → Exec (Host X) A
  on_maps m h = with_maps h (m h.maps)

abbrev pub host_bpf : Type 0 → Ebpf
host_bpf X = record {
  State = Host X;
  Map = ℕ;
  path_exists = λ p h. kernel.path_exists p h.maps;
  load_pinned = λ p. on_maps (kernel.load_pinned p);
  remove_memlock = on_maps kernel.remove_memlock;
  new_map = λ spec. on_maps (kernel.new_map spec);
  pin = λ m p. on_maps (kernel.pin m p);
  put = λ m k v. on_maps (kernel.put m k v);
  delete = λ m k. on_maps (kernel.delete m k);
  lookup = λ m k size. on_maps (kernel.lookup m k size);
  iterate = λ m a b. on_maps (kernel.iterate m a b);
  batch_delete = λ m ks. on_maps (kernel.batch_delete m ks);
}

abbrev link_in : Bytes → List Link → Option Link
link_in n [] = none
link_in n (l ∷ ls) = if same l.name n then some l else link_in n ls

abbrev found : {X : Type 0} → Option Link → Exec (Host X) Link
found none h = (err link_not_found, h)
found (some l) h = (ok l, h)

abbrev without_link : Bytes → List Link → List Link
without_link n [] = []
without_link n (l ∷ ls) = let rest = without_link n ls in if same l.name n then rest else l ∷ rest

abbrev pub link_of : Bytes → ℕ → Link
link_of n i = record {
  kind = veth;
  name = n;
  index = i;
  mtu = 1450;
  hardware_addr = 2 ∷ 0 ∷ 0 ∷ 0 ∷ 0 ∷ i ∷ [];
  parent_index = i;
}

-- A name that is taken is refused.
abbrev add_link : NewLink → List Link → Result (Unit {0}) × List Link
add_link (new_vxlan n mtu vxlan_id vtep ttl) ls =
    (ok tt, record (link_of n 9) { kind = vxlan } ∷ ls)
add_link (new_veth n peer mtu ns mac) ls = elim (link_in n ls) [
  | some l ↦ (err already_exist, ls)
  | none ↦ (ok tt, link_of n 7 ∷ link_of peer 8 ∷ ls)
]

abbrev with_links :
    {X : Type 0} → Host X → Result (Unit {0}) × List Link → Result (Unit {0}) × Host X
with_links h (r, ls) = (r, record h { links = ls; requests = h.requests + 1 })

abbrev pub pod_ip : ℕ
pod_ip = 167837954

abbrev pub conf : IpConfig
conf = record {
  address = some (v4 pod_ip);
  mask = record { ones = 29; bits = 32 };
  gateway = some (v4 167837953);
  interface = some 2;
}

abbrev pub reply : CniResult
reply = record {
  interfaces = [];
  ips = conf ∷ [];
  routes =
      record { dst = record { ip = v4 0; mask = record { ones = 0; bits = 32 } }; gw = none } ∷ [];
}

abbrev pub world_of : {X : Type 0} → (give take : X → X) → World
world_of {X} give take = record {
  bpf = host_bpf X;
  link_by_name = λ n h. found (link_in n h.links) h;
  link_add = λ l h. with_links h (add_link l h.links);
  link_del = λ n h. (ok tt, record h { links = without_link n h.links });
  link_set_up = λ l h. (ok tt, h);
  link_set_name = λ l n h. (ok tt, h);
  addr_list =
      λ l h. (ok (record { ip = v4 pod_ip; mask = record { ones = 29; bits = 32 } } ∷ []), h);
  addr_add = λ l ip m h. (ok tt, h);
  route_add = λ r h. (ok tt, h);
  route_add_ecmp = λ r h. (ok tt, h);
  route_del = λ r h. (ok tt, h);
  interface_by_name = λ n h. (ok 7, h);
  parse_mac = λ m. ok m;
  random = λ n h. (ok (1 ∷ 2 ∷ 3 ∷ 4 ∷ []), h);
  sysctl = λ n v h. (ok v, h);
  new_ethtool = λ h. (ok tt, h);
  close_ethtool = λ h. (ok tt, h);
  peer_stat = λ n h. (ok none, h);
  settle_addresses = λ n t h. (ok tt, h);
  output = λ c h. (([], none), h);
  Ns = Unit {0};
  get_ns = λ p h. (ok tt, h);
  close_ns = λ n h. (ok tt, h);
  ns_path = λ n. codes "/var/run/netns/p";
  ns_fd = λ n. 3;
  do_in = λ n f. f tt;
  with_ns_path = λ p f. f tt;
  Reply = CniResult;
  delegate_add = λ p c h. (ok reply, record h { leased = give h.leased });
  new_result = λ r. ok r;
  delegate_check = λ p c h. (ok tt, h);
  delegate_del = λ p c h. (ok tt, record h { leased = take h.leased });
  print_result = λ r v h. (ok tt, record h { printed = r ∷ h.printed });
}

-- The address is given out or not.
abbrev pub world : World
world = world_of (λ b. true) (λ b. false)

-- The tunnel is there.
abbrev pub idle_with : {X : Type 0} → X → Host X
idle_with x = record {
  maps = start;
  links = record (link_of (codes "vxlan2") 9) { kind = vxlan } ∷ [];
  requests = 0;
  leased = x;
  printed = [];
}

abbrev pub idle : Host Bool
idle = idle_with false
