-- ===== src/Vxlan/Maps.antt =====
-- What the plugin writes for a pod is what a lookup of the pod's address gives.
use my_cni.Prelude.{ℕ, ◌%◌, ◌^◌, ◌<◌, ◌≤◌, ◌≡◌, ◌∙◌, true, some, arith, length}
use my_cni.Text.{Bytes}
use my_cni.Net.{Notation6, ip_string}
use my_cni.Net.Dotted.{parse_cidr-dotted}
use my_cni.Utils.Subnet.{cidr_text}
use my_cni.Exec.{ok}
use my_cni.Bpf.{
  Ebpf, EndpointMapKey, EndpointMapInfo, lxc_map_path, create_lxc_map, set_lxc_map,
  get_key_value_from_lxc_map,
}
use my_cni.Bpf.Entries.{IsLawful, create_found, get-set_lxc_map}
use my_cni.Vxlan.{Veth, array_of, stuff8_byte, set_veth_pair_info_to_lxc_map}
use my_cni.Vxlan.Address.{inet_ip_to_uint32-dotted, stuff8_byte_lem}

abbrev pub key_of_ip : ℕ → EndpointMapKey
key_of_ip n = record { ip = n }

-- The two ends of a pod's link: their indices as words, and their addresses with zeros behind them.
abbrev pub info_of_links : Veth → Veth → EndpointMapInfo
info_of_links host_veth ns_veth = record {
  lxc_if_index = host_veth.index % 2 ^ 32;
  pod_if_index = ns_veth.index % 2 ^ 32;
  lxc_veth_mac = array_of host_veth.hardware_addr;
  pod_veth_mac = array_of ns_veth.hardware_addr;
}

module _ {B : Ebpf} (L : IsLawful B) ⦃n6 : Notation6⦄ (s : B.State) (m : B.Map)
    (there : B.path_exists lxc_map_path s ≡ true) (pin : L.pinned s lxc_map_path ≡ some m)
    (n ones : ℕ) (word : n < 2 ^ 32) (le : ones ≤ 32) (host_veth ns_veth : Veth)
    (host_short : length host_veth.hardware_addr ≤ 8)
    (ns_short : length ns_veth.hardware_addr ≤ 8) where
  stuff_short : (b : Bytes) → length b ≤ 8 → stuff8_byte b ≡ ok (array_of b)
  stuff_short b h = stuff8_byte_lem b ∙ ground arith

  pub writes_info :
      set_veth_pair_info_to_lxc_map B (cidr_text n ones) host_veth ns_veth s
      ≡ set_lxc_map B (key_of_ip n) (info_of_links host_veth ns_veth) s
  unfolding set_veth_pair_info_to_lxc_map ip_string create_lxc_map
  writes_info = rw (
    parse_cidr-dotted n ones word le,
    inet_ip_to_uint32-dotted n word,
    stuff_short host_veth.hardware_addr host_short,
    stuff_short ns_veth.hardware_addr ns_short,
    create_found L s m lxc_map_path _ there pin,
  )

  -- With the map of containers pinned and link addresses of at most eight bytes, a call that goes
  -- well leaves the two ends of the link at the pod's address: a lookup gives their indices as words
  -- and their link addresses with zeros behind them.
  pub get-set_veth_pair_info :
      (set_veth_pair_info_to_lxc_map B (cidr_text n ones) host_veth ns_veth s).0 ≡ ok tt
      → get_key_value_from_lxc_map B
          (key_of_ip n)
          (set_veth_pair_info_to_lxc_map B (cidr_text n ones) host_veth ns_veth s).1
        ≡ (
          ok (info_of_links host_veth ns_veth),
          (set_veth_pair_info_to_lxc_map B (cidr_text n ones) host_veth ns_veth s).1,
        )
  get-set_veth_pair_info o = rw writes_info (
      get-set_lxc_map L s m (key_of_ip n) (info_of_links host_veth ns_veth) pin
        (record { lxc = omega arith; pod = omega arith }) (rw writes_info at o))
