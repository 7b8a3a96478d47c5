-- ===== src/Utils.antt =====
-- utils/conf_helper.go: the addresses of a node's subnet, the gateway, and pools as texts.
pub mod Subnet
pub mod Pool
pub mod Kubeconf
use Prim.Native.Nat.{bit_and, bit_or, bit_xor}
use my_cni.Prelude.{
  ℕ, zero, suc, ◌+◌, ◌-◌, ◌*◌, ◌/◌, ◌%◌, ◌^◌, Bool, true, false, ◌||◌, List, [], ◌∷◌, ◌++◌, Option,
  none, some, leb, ltb, length, if◌then◌else◌,
}
use my_cni.Text.{Bytes, codes, split, join, same}
use my_cni.Net.{Ip, v4, v6, Mask, IpNet, Notation6, parse_cidr, ip_string}
use my_cni.Exec.{Result, ok, err, panic, hang, Error, message, caused}

-- `parts[len(parts)-1]`.
abbrev pub last_part : List Bytes → Bytes
last_part [] = []
last_part (p ∷ []) = p
last_part (p ∷ q ∷ qs) = last_part (q ∷ qs)

unfoldable pub invalid_ip : Bytes → Bool
invalid_ip ip =
    let part = last_part (split b'.' ip) in
    same part (codes "0") || (same part (codes "1") || same part (codes "255"))

-- `binary.BigEndian.Uint32` of the bytes of an address and of a mask.
unfoldable pub uint32_of : Ip → ℕ
uint32_of (v4 n) = n
uint32_of (v6 n) = n / 2 ^ 96

unfoldable pub uint32_of_mask : Mask → ℕ
uint32_of_mask m = 2 ^ 32 - 2 ^ (32 - m.ones)

module _ ⦃n6 : Notation6⦄ where
  -- One round of the loop over the addresses.
  abbrev pub keep : ℕ → Bytes → List Bytes → List Bytes
  keep i suffix ips =
      let ip_s = ip_string (some (v4 i)) in
      if invalid_ip ip_s then ips else ips ++ (ip_s ++ b'/' ∷ suffix) ∷ []

  -- `for i := start; i <= fin; i++`, where `i++` wraps around at 32 bits. The fuel may run out.
  unfoldable pub list_loop : ℕ → ℕ → ℕ → Bytes → List Bytes → Result (List Bytes)
  list_loop zero i fin suffix ips = hang
  list_loop (suc fuel) i fin suffix ips =
      let rest = list_loop fuel ((i + 1) % 2 ^ 32) fin suffix (keep i suffix ips) in
      if leb i fin then rest else ok ips

  -- A loop that ends takes one round for each word at most, and one for the last test.
  abbrev pub rounds : ℕ
  rounds = 2 ^ 32 + 1

  abbrev pub list_net : IpNet → Bytes → Result (List Bytes)
  list_net ipv4_net suffix =
      let mask = uint32_of_mask ipv4_net.mask in
      let start = uint32_of ipv4_net.ip in
      let fin = bit_or (bit_and start mask) (bit_xor mask 0xffffffff) in
      list_loop rounds start fin suffix []

  abbrev list_parsed : Option (Ip × IpNet) → Bytes → Result (List Bytes)
  list_parsed none suffix = err (caused "listIPv4Addr failed!" (message "invalid CIDR address"))
  list_parsed (some (ip, ipv4_net)) suffix = list_net ipv4_net suffix

  abbrev list_parts : List Bytes → Bytes → Result (List Bytes)
  list_parts (_ ∷ suffix ∷ _) cidr = list_parsed (parse_cidr cidr) suffix
  list_parts _ cidr = err (message "Invalid cidr string!")

  unfoldable pub list_ipv4_addr : Bytes → Result (List Bytes)
  list_ipv4_addr cidr = list_parts (split b'/' cidr) cidr

  unfoldable pub get_valid_ips : Bytes → Result (List Bytes)
  get_valid_ips ipcidr = list_ipv4_addr ipcidr

-- `ip_part[n - 1] = "1"`.
abbrev pub set_last : List Bytes → Bytes → List Bytes
set_last [] v = []
set_last (p ∷ []) v = v ∷ []
set_last (p ∷ q ∷ qs) v = p ∷ set_last (q ∷ qs) v

-- `segs[1]` is out of range where the text has no slash.
abbrev gateway_of : List Bytes → Result Bytes
gateway_of (addr ∷ mask ∷ _) =
    ok (join b'.' (set_last (split b'.' addr) (codes "1")) ++ b'/' ∷ mask)
gateway_of _ = panic

unfoldable pub get_gateway : Bytes → Result Bytes
get_gateway given_ip = gateway_of (split b'/' given_ip)

unfoldable pub convert_string_to_array : Bytes → List Bytes
convert_string_to_array s = split b';' s

unfoldable pub convert_array_to_string : List Bytes → Bytes
convert_array_to_string arr = join b';' arr
