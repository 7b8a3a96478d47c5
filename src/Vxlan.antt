-- ===== src/Vxlan.antt =====
-- plugins/main/vxlan/main.go: the codes of addresses, and what the plugin writes into the BPF maps.
pub mod Address
pub mod Maps
pub mod Setup
pub mod Plugin
pub mod Untouched
pub mod Release
pub mod Returned
pub mod Entries
pub mod Teardown
use Prim.Native.Nat.{bit_and}
use my_cni.Prelude.{
  zero, suc, ℕ, ◌+◌, ◌*◌, ◌/◌, ◌%◌, ◌^◌, Bool, List, [], ◌∷◌, ◌++◌, Option, none, some, length,
  take, drop, ltb, ◌-◌, if◌then◌else◌,
}
use my_cni.Text.{Bytes, codes, split, join, same}
use my_cni.Net.{Ip, IpNet, Notation6, parse_cidr, ip_string, itoa, atoi}
use my_cni.Exec.{
  Exec, Error, Result, ok, err, panic, hang, message, caused, pure, lift, wrap, from_option, ◌>>=◌,
  ◌>>◌,
}
use my_cni.Bpf.{
  Ebpf, Array8, EndpointMapKey, EndpointMapInfo, PodInfoKey, PodInfoValue, create_lxc_map,
  create_pod_ip_map, set_lxc_map, set_pod_ip_map, set_vxlan_map, get_key_value_from_pod_ip_map,
}

-- The fields of `NetConf` that the program reads.
pub record NetConf : Type 0 where
  pub ipam_type : Bytes
  pub cni_version : Bytes
  pub podname : Bytes
  pub namespace : Bytes

pub record K8sEnvArgs : Type 0 where
  pub pod_namespace : Bytes
  pub pod_name : Bytes

abbrev unless_empty : Bytes → Bytes → Bytes
unless_empty [] old = old
unless_empty (c ∷ s) old = c ∷ s

abbrev with_args : NetConf → K8sEnvArgs → NetConf
with_args n e = record n {
  podname = unless_empty e.pod_name n.podname;
  namespace = unless_empty e.pod_namespace n.namespace;
}

module _ (unmarshal : Bytes → Result NetConf) (load_args : Bytes → Result K8sEnvArgs) where
  abbrev load_env : NetConf → Bytes → Result NetConf
  load_env n [] = ok n
  load_env n (c ∷ s) = elim (load_args (c ∷ s)) [
    | ok e ↦ ok (with_args n e)
    | err x ↦ err x
    | panic ↦ panic
    | hang ↦ panic
  ]

  -- The JSON decoder and the reader of CNI arguments are parameters.
  unfoldable pub load_net_conf : Bytes → Bytes → Result NetConf
  load_net_conf bytes env_args = elim (unmarshal bytes) [
    | ok n ↦ load_env n env_args
    | err x ↦ err (caused "failed to load netconf: %v" x)
    | panic ↦ panic
    | hang ↦ panic
  ]

-- `b[i]`, and 0 behind the end.
abbrev pub byte_at : ℕ → Bytes → ℕ
byte_at i [] = 0
byte_at zero (c ∷ s) = c
byte_at (suc i) (c ∷ s) = byte_at i s

abbrev pub array_of : Bytes → Array8
array_of b = record {
  b0 = byte_at 0 b;
  b1 = byte_at 1 b;
  b2 = byte_at 2 b;
  b3 = byte_at 3 b;
  b4 = byte_at 4 b;
  b5 = byte_at 5 b;
  b6 = byte_at 6 b;
  b7 = byte_at 7 b;
}

-- The loop: a ninth byte is out of range.
abbrev fill : Bytes → Result Array8
fill b = if ltb 8 (length b) then panic else ok (array_of b)

unfoldable pub stuff8_byte : Bytes → Result Array8
stuff8_byte b = fill (if ltb 8 (length b) then take 9 b else b)

-- `uint32(b) << k` of the number that a part reads as; errors of `Atoi` are dropped.
abbrev shifted : Bytes → ℕ → ℕ
shifted part k = (atoi part).0 % 2 ^ 32 * 2 ^ k % 2 ^ 32

abbrev sum_of : List Bytes → Result ℕ
sum_of (a ∷ b ∷ c ∷ d ∷ _) = ok (
    ((((0 + shifted a 24) % 2 ^ 32 + shifted b 16) % 2 ^ 32 + shifted c 8) % 2 ^ 32 + shifted d 0)
    % 2 ^ 32)
sum_of _ = panic

unfoldable pub inet_ip_to_uint32 : Bytes → Result ℕ
inet_ip_to_uint32 ip = sum_of (split b'.' ip)

unfoldable pub uint32_to_inet_ip : ℕ → Bytes
uint32_to_inet_ip ip = join b'.' (
    itoa (bit_and (ip / 2 ^ 24) 0xff)
    ∷ itoa (bit_and (ip / 2 ^ 16) 0xff)
    ∷ itoa (bit_and (ip / 2 ^ 8) 0xff)
    ∷ itoa (bit_and ip 0xff)
    ∷ [])

-- The last five bytes of a name; a shorter name is out of range.
unfoldable pub pod_key : Bytes → Result Array8
pod_key podname =
    if ltb (length podname) 5 then panic else ok (array_of (drop (length podname - 5) podname))

-- The attributes of a link that the program reads.
pub record Veth : Type 0 where
  pub index : ℕ
  pub hardware_addr : Bytes

abbrev bad_cidr : Error
bad_cidr = message "invalid CIDR address"

module _ (B : Ebpf) ⦃n6 : Notation6⦄ where
  unfoldable pub set_veth_pair_info_to_lxc_map : Bytes → Veth → Veth → Exec B.State (Unit {0})
  set_veth_pair_info_to_lxc_map pod_ip host_veth ns_veth = do
    (netip, _) ← from_option bad_cidr (parse_cidr pod_ip)
    key ← lift (inet_ip_to_uint32 (ip_string (some netip)))
    host_veth_mac ← lift (stuff8_byte host_veth.hardware_addr)
    ns_veth_mac ← lift (stuff8_byte ns_veth.hardware_addr)
    create_lxc_map B
    set_lxc_map B (record { ip = key })
        (record {
          lxc_if_index = host_veth.index % 2 ^ 32;
          pod_if_index = ns_veth.index % 2 ^ 32;
          lxc_veth_mac = host_veth_mac;
          pod_veth_mac = ns_veth_mac;
        })

  unfoldable pub set_pod_ip_to_pod_map : Bytes → Bytes → Exec B.State (Unit {0})
  set_pod_ip_to_pod_map podname pod_ip = do
    key ← lift (pod_key podname)
    (netip, _) ← from_option bad_cidr (parse_cidr pod_ip)
    value ← lift (inet_ip_to_uint32 (ip_string (some netip)))
    create_pod_ip_map B
    set_pod_ip_map B (record { pod_name = key }) (record { ip = value })

module _ (B : Ebpf) where
  unfoldable pub load_pod_ip : Bytes → Exec B.State Bytes
  load_pod_ip podname = do
    key ← lift (pod_key podname)
    res ← get_key_value_from_pod_ip_map B (record { pod_name = key })
    pure (uint32_to_inet_ip res.ip)

  unfoldable pub set_vxlan_info_to_node_map : Veth → Exec B.State (Unit {0})
  set_vxlan_info_to_node_map vxlan =
      set_vxlan_map B (record { net_type = 1 }) (record { if_index = vxlan.index % 2 ^ 32 })
