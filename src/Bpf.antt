-- ===== src/Bpf.antt =====
-- bpfmap/bpfmap.go and bpfmap/main.go: the pinned maps that the plugin shares with the packet
-- programs. The ebpf library and the kernel are a parameter; keys and values are the bytes of the
-- structs, on a little-endian machine.
pub mod Entries
use my_cni.Prelude.{
  ℕ, ◌+◌, ◌*◌, ◌/◌, ◌%◌, ◌^◌, Bool, List, [], ◌∷◌, ◌++◌, Option, none, some, if◌then◌else◌,
}
use my_cni.Text.{Bytes, codes}
use my_cni.Exec.{Exec, Error, message, pure, raise, from_option, ◌>>=◌, ◌>>◌}

-- `ebpf.MapSpec`. The type is always that of a hash map.
pub record MapSpec : Type 0 where
  pub name : Bytes
  pub key_size : ℕ
  pub value_size : ℕ
  pub max_entries : ℕ
  pub flags : ℕ

-- What the program calls of the library. `lookup` and `iterate` are told the sizes of what they fill;
-- `iterate` gives the keys up to where it stops.
pub record Ebpf : Type 1 where
  pub State : Type 0
  pub Map : Type 0
  pub path_exists : Bytes → State → Bool
  pub load_pinned : Bytes → Exec State Map
  pub remove_memlock : Exec State (Unit {0})
  pub new_map : MapSpec → Exec State Map
  pub pin : Map → Bytes → Exec State (Unit {0})
  pub put : Map → Bytes → Bytes → Exec State (Unit {0})
  pub delete : Map → Bytes → Exec State (Unit {0})
  pub lookup : Map → Bytes → ℕ → Exec State Bytes
  pub iterate : Map → ℕ → ℕ → Exec State (List Bytes)
  pub batch_delete : Map → List Bytes → Exec State ℕ

-- `uint32` in memory.
abbrev pub word : ℕ → Bytes
word n = n % 2 ^ 8 ∷ n / 2 ^ 8 % 2 ^ 8 ∷ n / 2 ^ 16 % 2 ^ 8 ∷ n / 2 ^ 24 % 2 ^ 8 ∷ []

abbrev pub of_word : ℕ → ℕ → ℕ → ℕ → ℕ
of_word a b c d = a + b * 2 ^ 8 + c * 2 ^ 16 + d * 2 ^ 24

-- An array of eight bytes.
pub record Array8 : Type 0 where
  pub b0 : ℕ
  pub b1 : ℕ
  pub b2 : ℕ
  pub b3 : ℕ
  pub b4 : ℕ
  pub b5 : ℕ
  pub b6 : ℕ
  pub b7 : ℕ

abbrev pub bytes8 : Array8 → Bytes
bytes8 a = a.b0 ∷ a.b1 ∷ a.b2 ∷ a.b3 ∷ a.b4 ∷ a.b5 ∷ a.b6 ∷ a.b7 ∷ []

pub record EndpointMapKey : Type 0 where
  pub ip : ℕ

pub record EndpointMapInfo : Type 0 where
  pub lxc_if_index : ℕ
  pub pod_if_index : ℕ
  pub lxc_veth_mac : Array8
  pub pod_veth_mac : Array8

pub record PodInfoKey : Type 0 where
  pub pod_name : Array8

pub record PodInfoValue : Type 0 where
  pub ip : ℕ

pub record VirtualNetKey : Type 0 where
  pub net_type : ℕ

pub record VirtualNetValue : Type 0 where
  pub if_index : ℕ

pub record NodeCidrValue : Type 0 where
  pub real_ip : ℕ

abbrev pub info_bytes : EndpointMapInfo → Bytes
info_bytes v =
    word v.lxc_if_index ++ word v.pod_if_index ++ bytes8 v.lxc_veth_mac ++ bytes8 v.pod_veth_mac

abbrev pub info_of : Bytes → Option EndpointMapInfo
info_of
      (a ∷ b ∷ c ∷ d ∷ e ∷ f ∷ g ∷ h ∷ l0 ∷ l1 ∷ l2 ∷ l3 ∷ l4 ∷ l5 ∷ l6 ∷ l7 ∷ p0 ∷ p1 ∷ p2 ∷ p3
        ∷ p4 ∷ p5 ∷ p6 ∷ p7 ∷ []) =
    some (record {
      lxc_if_index = of_word a b c d;
      pod_if_index = of_word e f g h;
      lxc_veth_mac = record {
        b0 = l0;
        b1 = l1;
        b2 = l2;
        b3 = l3;
        b4 = l4;
        b5 = l5;
        b6 = l6;
        b7 = l7;
      };
      pod_veth_mac = record {
        b0 = p0;
        b1 = p1;
        b2 = p2;
        b3 = p3;
        b4 = p4;
        b5 = p5;
        b6 = p6;
        b7 = p7;
      };
    })
info_of _ = none

abbrev pub word_of : Bytes → Option ℕ
word_of (a ∷ b ∷ c ∷ d ∷ []) = some (of_word a b c d)
word_of _ = none

abbrev pub bad_size : Error
bad_size = message "unmarshal: size"

abbrev pub lxc_map_path : Bytes
lxc_map_path = codes "/sys/fs/bpf/tc/globals/lxc_map"

abbrev pub pod_ip_map_path : Bytes
pod_ip_map_path = codes "/sys/fs/bpf/pod_map"

abbrev pub vxlan_map_path : Bytes
vxlan_map_path = codes "/sys/fs/bpf/tc/globals/node_vxlan_map"

abbrev pub node_cidr_map_path : Bytes
node_cidr_map_path = codes "/sys/fs/bpf/tc/globals/node_cidr_map"

module _ (B : Ebpf) where
  -- Every call leaves the options out.
  unfoldable pub get_map_by_pinned_path : Bytes → Exec B.State B.Map
  get_map_by_pinned_path pin_path = B.load_pinned pin_path

  unfoldable pub create_map : MapSpec → Exec B.State B.Map
  create_map spec = do B.remove_memlock; B.new_map spec

  abbrev pub create_pinned : Bytes → MapSpec → Exec B.State B.Map
  create_pinned pin_path spec = do mp ← create_map spec; B.pin mp pin_path; pure mp

  unfoldable pub create_pin_map_once : Bytes → MapSpec → Exec B.State B.Map
  create_pin_map_once pin_path spec s =
      if B.path_exists pin_path s
      then get_map_by_pinned_path pin_path s
      else create_pinned pin_path spec s

  unfoldable pub create_lxc_map : Exec B.State B.Map
  create_lxc_map = create_pin_map_once lxc_map_path (record {
    name = codes "lxc_map";
    key_size = 4;
    value_size = 24;
    max_entries = 32;
    flags = 0;
  })

  unfoldable pub create_pod_ip_map : Exec B.State B.Map
  create_pod_ip_map =
      create_pin_map_once pod_ip_map_path (record {
        name = codes "pod_map";
        key_size = 8;
        value_size = 4;
        max_entries = 32;
        flags = 0;
      })

  unfoldable pub create_vxlan_map : Exec B.State B.Map
  create_vxlan_map = create_pin_map_once vxlan_map_path (record {
    name = codes "node_vxlan_map";
    key_size = 4;
    value_size = 4;
    max_entries = 8;
    flags = 0;
  })

  unfoldable pub create_node_cidr_map : Exec B.State B.Map
  create_node_cidr_map = create_pin_map_once node_cidr_map_path (record {
    name = codes "node_cidr_map";
    key_size = 4;
    value_size = 4;
    max_entries = 256;
    flags = 0;
  })

  abbrev pub put_at : Bytes → Bytes → Bytes → Exec B.State (Unit {0})
  put_at path key value = do mp ← get_map_by_pinned_path path; B.put mp key value

  unfoldable pub set_lxc_map : EndpointMapKey → EndpointMapInfo → Exec B.State (Unit {0})
  set_lxc_map key value = put_at lxc_map_path (word key.ip) (info_bytes value)

  unfoldable pub set_pod_ip_map : PodInfoKey → PodInfoValue → Exec B.State (Unit {0})
  set_pod_ip_map key value = put_at pod_ip_map_path (bytes8 key.pod_name) (word value.ip)

  unfoldable pub set_vxlan_map : VirtualNetKey → VirtualNetValue → Exec B.State (Unit {0})
  set_vxlan_map key value = put_at vxlan_map_path (word key.net_type) (word value.if_index)

  unfoldable pub set_node_cidr_map : VirtualNetKey → VirtualNetValue → Exec B.State (Unit {0})
  set_node_cidr_map key value = put_at node_cidr_map_path (word key.net_type) (word value.if_index)

  unfoldable pub del_key_lxc_map : EndpointMapKey → Exec B.State (Unit {0})
  del_key_lxc_map key = do mp ← get_map_by_pinned_path lxc_map_path; B.delete mp (word key.ip)

  unfoldable pub batch_del_key_lxc_map : List Bytes → Exec B.State ℕ
  batch_del_key_lxc_map keys = do mp ← get_map_by_pinned_path lxc_map_path; B.batch_delete mp keys

  -- The three resets read keys and values of the sizes of the first map, and delete from it.
  abbrev reset_at : Bytes → Exec B.State ℕ
  reset_at path = do
    mp ← get_map_by_pinned_path path
    keys ← B.iterate mp 4 24
    batch_del_key_lxc_map keys

  unfoldable pub reset_lxc_map : Exec B.State ℕ
  reset_lxc_map = reset_at lxc_map_path

  unfoldable pub reset_vxlan_map : Exec B.State ℕ
  reset_vxlan_map = reset_at vxlan_map_path

  unfoldable pub reset_node_cidr_map : Exec B.State ℕ
  reset_node_cidr_map = reset_at node_cidr_map_path

  unfoldable pub get_key_value_from_lxc_map : EndpointMapKey → Exec B.State EndpointMapInfo
  get_key_value_from_lxc_map key = do
    mp ← get_map_by_pinned_path lxc_map_path
    raw ← B.lookup mp (word key.ip) 24
    from_option bad_size (info_of raw)

  unfoldable pub get_key_value_from_pod_ip_map : PodInfoKey → Exec B.State PodInfoValue
  get_key_value_from_pod_ip_map key = do
    mp ← get_map_by_pinned_path pod_ip_map_path
    raw ← B.lookup mp (bytes8 key.pod_name) 4
    ip ← from_option bad_size (word_of raw)
    pure (record { ip = ip })

  -- The key is the eight bytes of a pod's name, where the map has keys of four bytes.
  unfoldable pub get_key_value_from_node_cidr_map : PodInfoKey → Exec B.State NodeCidrValue
  get_key_value_from_node_cidr_map key = do
    mp ← get_map_by_pinned_path node_cidr_map_path
    raw ← B.lookup mp (bytes8 key.pod_name) 4
    ip ← from_option bad_size (word_of raw)
    pure (record { real_ip = ip })
