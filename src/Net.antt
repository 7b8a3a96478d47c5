-- ===== src/Net.antt =====
-- What the program uses of Go's `net` and `strconv`: addresses, masks, CIDR texts, decimals. An
-- address of four bytes and its form of sixteen bytes are one value. The notation of IPv6 addresses
-- is an instance argument, and a nil `net.IP` is `none`.
mod Decimal
pub mod Dotted
pub mod Bits
unfoldable pub use Decimal.{itoa, atoi, octet, dtoi}
use my_cni.Prelude.{
  ℕ, ◌+◌, ◌-◌, ◌*◌, ◌/◌, ◌%◌, ◌^◌, Bool, true, false, ◌&&◌, List, [], ◌∷◌, ◌++◌, Option, none, some,
  ltb, leb, ◌==◌, if◌then◌else◌,
}
use my_cni.Text.{Bytes, codes, split, join}

pub data Ip : Type 0 where
  v4 : ℕ → Ip
  v6 : ℕ → Ip

-- How `net` reads and prints the addresses that are written with colons.
pub record Notation6 : Type 0 where
  pub parse : Bytes → Option ℕ
  pub print : ℕ → Bytes

-- `net.CIDRMask(ones, bits)`.
pub record Mask : Type 0 where
  pub ones : ℕ
  pub bits : ℕ

pub record IpNet : Type 0 where
  pub ip : Ip
  pub mask : Mask

-- `ip.To4()`: an IPv4 address, also one that is mapped into IPv6.
abbrev pub to4 : Ip → Option ℕ
to4 (v4 n) = some n
to4 (v6 n) = if n / 2 ^ 32 == 0xffff then some (n % 2 ^ 32) else none

abbrev pub raw : Ip → ℕ
raw (v4 n) = n
raw (v6 n) = n

-- The four bytes of an IPv4 address, in decimal.
unfoldable pub dotted : ℕ → Bytes
dotted n = join b'.' (
    itoa (n / 2 ^ 24 % 256)
    ∷ itoa (n / 2 ^ 16 % 256)
    ∷ itoa (n / 2 ^ 8 % 256)
    ∷ itoa (n % 256)
    ∷ [])

-- Four parts, each a byte in decimal.
abbrev four : List Bytes → Option ℕ
four (a ∷ b ∷ c ∷ d ∷ []) = elim (octet a) [
  | none ↦ none
  | some w ↦ elim (octet b) [
    | none ↦ none
    | some x ↦ elim (octet c) [
      | none ↦ none
      | some y ↦ elim (octet d) [
        | none ↦ none
        | some z ↦ some (w * 2 ^ 24 + x * 2 ^ 16 + y * 2 ^ 8 + z)
      ]
    ]
  ]
]
four _ = none

unfoldable pub parse_dotted : Bytes → Option ℕ
parse_dotted s = four (split b'.' s)

-- The first dot or colon says which notation a text is in.
pub data Kind : Type 0 where
  dots colons neither : Kind

unfoldable pub kind : Bytes → Kind
kind [] = neither
kind (c ∷ s) = let rest = kind s in if c == b'.' then dots else if c == b':' then colons else rest

abbrev pub address : Option ℕ → (ℕ → Ip) → Option Ip
address none f = none
address (some n) f = some (f n)

module _ ⦃n6 : Notation6⦄ where
  -- `net.ParseIP(s)`.
  unfoldable pub parse_ip : Bytes → Option Ip
  parse_ip s = elim (kind s) [
    | dots ↦ address (parse_dotted s) v4
    | colons ↦ address (n6.parse s) v6
    | neither ↦ none
  ]

  -- `ip.String()`.
  unfoldable pub ip_string : Option Ip → Bytes
  ip_string none = codes "<nil>"
  ip_string (some ip) = elim (to4 ip) [ some n ↦ dotted n | none ↦ n6.print (raw ip) ]

abbrev pub width : Ip → ℕ
width (v4 n) = 32
width (v6 n) = 128

-- `ip.Mask(mask)` for a mask as long as the address: the low bits are cleared.
unfoldable pub masked : Ip → ℕ → Ip
masked (v4 n) ones = v4 (n / 2 ^ (32 - ones) * 2 ^ (32 - ones))
masked (v6 n) ones = v6 (n / 2 ^ (128 - ones) * 2 ^ (128 - ones))

abbrev pub network : Ip → ℕ → IpNet
network ip ones = record { ip = masked ip ones; mask = record { ones = ones; bits = width ip } }

-- The text before the first slash and the text behind it.
unfoldable pub cut_slash : Bytes → Option (Bytes × Bytes)
cut_slash [] = none
cut_slash (c ∷ s) =
    let rest = cut_slash s in
    if c == b'/'
    then some ([], s)
    else elim rest [ none ↦ none | some (addr, mask) ↦ some (c ∷ addr, mask) ]

abbrev with_ones : Option Ip → Option ℕ → Option (Ip × IpNet)
with_ones none o = none
with_ones (some ip) none = none
with_ones (some ip) (some n) = if leb n (width ip) then some (ip, network ip n) else none

module _ ⦃n6 : Notation6⦄ where
  abbrev parse_pair : Option (Bytes × Bytes) → Option (Ip × IpNet)
  parse_pair none = none
  parse_pair (some (addr, mask)) = with_ones (parse_ip addr) (dtoi mask)

  -- `net.ParseCIDR(s)`: the address, and the network that it lies in.
  unfoldable pub parse_cidr : Bytes → Option (Ip × IpNet)
  parse_cidr s = parse_pair (cut_slash s)

-- `n.Contains(ip)`: both addresses are cut to four bytes where they can be.
unfoldable pub contains : IpNet → Option Ip → Bool
contains n none = false
contains n (some ip) =
    let ones = if n.mask.bits == 32 then n.mask.ones else n.mask.ones - 96 in
    elim (to4 n.ip) [
      | some a ↦ elim (to4 ip) [
        | some x ↦ x / 2 ^ (32 - ones) == a / 2 ^ (32 - ones)
        | none ↦ false
      ]
      | none ↦ elim (to4 ip) [
        | some x ↦ false
        | none ↦ raw ip / 2 ^ (128 - n.mask.ones) == raw n.ip / 2 ^ (128 - n.mask.ones)
      ]
    ]

-- `ip.Equal(x)`: a mapped address equals the IPv4 address that it stands for.
unfoldable pub ip_equal : Option Ip → Option Ip → Bool
ip_equal none none = true
ip_equal none (some b) = false
ip_equal (some a) none = false
ip_equal (some a) (some b) = elim (to4 a) [
  | some x ↦ elim (to4 b) [ some y ↦ x == y | none ↦ false ]
  | none ↦ elim (to4 b) [ some y ↦ false | none ↦ raw a == raw b ]
]
