-- ===== src/Utils/Subnet.antt =====
-- What `list_ipv4_addr` lists, and when its loop ends.
use my_cni.Prelude.{
  ℕ, zero, suc, ◌+◌, ◌-◌, ◌*◌, ◌/◌, ◌%◌, ◌^◌, ◌≤◌, ◌<◌, ◌≡◌, refl, ◌∙◌, ap, Bool, true, false, ◌||◌,
  List, [], ◌∷◌, ◌++◌, append_assoc, append-nil, map, arith, ◌==◌, leb, if◌then◌else◌, all_below,
  all_below-elim, ◌&&◌, not,
}
use my_cni.Text.{Bytes, codes, split, same}
use native.Mathlib.Nat.{one-le-pow}
use my_cni.Text.Split.{split_single, split-append}
use my_cni.Net.{v4, Notation6, ip_string, dotted, itoa, network, masked}
use my_cni.Net.Dotted.{itoa-Lacks-slash, split-dotted, parse_cidr-dotted, dotted-Lacks-slash}
use my_cni.Net.Bits.{network_ends}
use my_cni.Exec.{ok, hang}
use my_cni.Utils.{
  invalid_ip, list_loop, list_net, rounds, list_ipv4_addr, keep, uint32_of, uint32_of_mask,
}

-- The last bytes that a pod never gets.
abbrev pub reserved : ℕ → Bool
reserved x = x == 0 || (x == 1 || x == 255)

abbrev iff : Bool → Bool → Bool
iff a b = (a && b) || (not a && not b)

iff-eq : (a b : Bool) → iff a b ≡ true → a ≡ b
iff-eq a b h = ground arith

reserved_table :
    all_below 256 (λ x.
      iff
        (same (itoa x) (codes "0") || (same (itoa x) (codes "1") || same (itoa x) (codes "255")))
        (reserved x))
    ≡ true
unfolding all_below same itoa
reserved_table = refl

-- The test on the text is a test on the last byte.
pub invalid_ip-dotted : (n : ℕ) → invalid_ip (dotted n) ≡ reserved (n % 256)
unfolding invalid_ip
invalid_ip-dotted n =
    rw (split-dotted n) (iff-eq _ _ (all_below-elim 256 _ (n % 256) (omega arith) reserved_table))

-- The addresses among `count` ones from `base` on that a pod may get, in order.
abbrev pub usable : ℕ → ℕ → List ℕ
usable base zero = []
usable base (suc count) =
    let rest = usable (base + 1) count in if reserved (base % 256) then rest else base ∷ rest

-- An entry of a node's pool.
abbrev pub entry : Bytes → ℕ → Bytes
entry suffix n = dotted n ++ b'/' ∷ suffix

le→leb : (a b : ℕ) → a ≤ b → leb a b ≡ true
le→leb a b h = ground arith

-- The lowest address of the network of `n` and a mask of `ones`.
abbrev pub low : ℕ → ℕ → ℕ
low n ones = n / 2 ^ (32 - ones) * 2 ^ (32 - ones)

module _ ⦃n6 : Notation6⦄ where
  keep_lem :
      (i : ℕ) (suffix : Bytes) (ips : List Bytes)
      → keep i suffix ips ≡ (if reserved (i % 256) then ips else ips ++ entry suffix i ∷ [])
  unfolding ip_string
  keep_lem i suffix ips = rw (invalid_ip-dotted i)

  keep-usable :
      (i count : ℕ) (suffix : Bytes) (ips : List Bytes)
      → keep i suffix ips ++ map (entry suffix) (usable (i + 1) count)
        ≡ ips ++ map (entry suffix) (usable i (suc count))
  keep-usable i count suffix ips = rw keep_lem (tail (reserved (i % 256)))
    where
      tail :
          (b : Bool)
          → (if b then ips else ips ++ entry suffix i ∷ [])
              ++ map (entry suffix) (usable (i + 1) count)
            ≡ ips
              ++ map (entry suffix) (if b then usable (i + 1) count else i ∷ usable (i + 1) count)
      tail true = refl
      tail false = rw append_assoc

  -- The loop ends below the largest word, and appends the entries in order.
  list_loop_lem :
      (count fuel i fin : ℕ) (suffix : Bytes) (ips : List Bytes)
      → i + count ≡ fin + 1
      → fin + 1 < 2 ^ 32
      → count < fuel
      → list_loop fuel i fin suffix ips ≡ ok (ips ++ map (entry suffix) (usable i count))
  unfolding list_loop
  list_loop_lem count zero i fin suffix ips e lt h = absurd (omega arith)
  list_loop_lem zero (suc fuel) i fin suffix ips e lt h = ground (arith, append-nil ips)
  list_loop_lem (suc count) (suc fuel) i fin suffix ips e lt h =
      rw
        (
          le→leb i fin (omega arith),
          no_wrap,
          list_loop_lem count fuel (i + 1) fin suffix (keep i suffix ips) (omega arith) lt
              (omega arith),
        )
        (ap ok (keep-usable i count suffix ips))
    where
      no_wrap : (i + 1) % 2 ^ 32 ≡ i + 1
      no_wrap = omega arith

  -- The loop whose last address is 255.255.255.255 does not end, whatever fuel it has.
  pub list_loop-hang :
      (fuel i : ℕ) (suffix : Bytes) (ips : List Bytes)
      → i < 2 ^ 32
      → list_loop fuel i (2 ^ 32 - 1) suffix ips ≡ hang
  unfolding list_loop
  list_loop-hang zero i suffix ips h = refl
  list_loop-hang (suc fuel) i suffix ips h =
      ground (arith, list_loop-hang fuel ((i + 1) % 2 ^ 32) suffix (keep i suffix ips))

  list_net_lem :
      (n ones : ℕ) (suffix : Bytes)
      → ones ≤ 32
      → low n ones + 2 ^ (32 - ones) < 2 ^ 32
      → list_net (network (v4 n) ones) suffix
        ≡ ok (map (entry suffix) (usable (low n ones) (2 ^ (32 - ones))))
  unfolding masked uint32_of uint32_of_mask
  list_net_lem n ones suffix le lt =
      rw (network_ends (32 - ones) (n / 2 ^ (32 - ones)) (omega arith) (omega arith)) (
        list_loop_lem (2 ^ (32 - ones)) rounds (low n ones) (low n ones + (2 ^ (32 - ones) - 1))
          suffix [] (omega (arith, one-le-pow (32 - ones) 2))
          (omega (arith, one-le-pow (32 - ones) 2)) (omega arith))

  list_net-hang :
      (n ones : ℕ) (suffix : Bytes)
      → ones ≤ 32
      → low n ones + 2 ^ (32 - ones) ≡ 2 ^ 32
      → list_net (network (v4 n) ones) suffix ≡ hang
  unfolding masked uint32_of uint32_of_mask
  list_net-hang n ones suffix le e =
      rw
        (
          network_ends (32 - ones) (n / 2 ^ (32 - ones)) (omega arith)
              (omega (arith, one-le-pow (32 - ones) 2)),
          last,
        )
        (list_loop-hang rounds (low n ones) suffix [] (omega (arith, one-le-pow (32 - ones) 2)))
    where
      last : low n ones + (2 ^ (32 - ones) - 1) ≡ 2 ^ 32 - 1
      last = omega arith

-- The text of a subnet of the node.
abbrev pub cidr_text : ℕ → ℕ → Bytes
cidr_text n ones = dotted n ++ b'/' ∷ itoa ones

module _ (n ones : ℕ) (le : ones ≤ 32) where
  pub split-cidr_text : split b'/' (cidr_text n ones) ≡ dotted n ∷ itoa ones ∷ []
  split-cidr_text =
      split-append b'/' (dotted n) (itoa ones) (dotted-Lacks-slash n)
      ∙ ap (λ ps. dotted n ∷ ps)
          (split_single b'/' (itoa ones) (itoa-Lacks-slash ones (omega arith)))

module _ ⦃n6 : Notation6⦄ (n ones : ℕ) (word : n < 2 ^ 32) (le : ones ≤ 32) where
  -- For a subnet that does not hold 255.255.255.255, the list holds each address of the subnet whose
  -- last byte is not 0, 1 or 255, in order and with the length of the mask, and nothing else.
  pub list_ipv4_addr_lem :
      low n ones + 2 ^ (32 - ones) < 2 ^ 32
      → list_ipv4_addr (cidr_text n ones)
        ≡ ok (map (entry (itoa ones)) (usable (low n ones) (2 ^ (32 - ones))))
  unfolding list_ipv4_addr
  list_ipv4_addr_lem lt =
      rw (split-cidr_text n ones le, parse_cidr-dotted n ones word le)
        (list_net_lem n ones (itoa ones) le lt)

  -- For a subnet that holds 255.255.255.255 the loop does not end: its counter wraps around.
  pub list_ipv4_addr-hang :
      low n ones + 2 ^ (32 - ones) ≡ 2 ^ 32 → list_ipv4_addr (cidr_text n ones) ≡ hang
  unfolding list_ipv4_addr
  list_ipv4_addr-hang e =
      rw (split-cidr_text n ones le, parse_cidr-dotted n ones word le)
        (list_net-hang n ones (itoa ones) le e)
