-- ===== src/Vxlan/Address.antt =====
-- The codes of IPv4 addresses as words, there and back, and the arrays of eight bytes.
use Prim.Native.Nat.{bit_and}
use my_cni.Prelude.{
  zero, suc, take, ℕ, ◌+◌, ◌*◌, ◌/◌, ◌%◌, ◌^◌, ◌<◌, ◌≤◌, ◌≡◌, refl, ap, true, [], ◌∷◌, arith, ◌==◌,
  ltb, all_below, all_below-elim, length, if◌then◌else◌,
}
use my_cni.Text.{Bytes}
use my_cni.Net.{dotted, itoa, atoi}
use my_cni.Net.Dotted.{split-dotted}
use my_cni.Net.Bits.{and_low}
use my_cni.Exec.{ok, panic}
use my_cni.Vxlan.{array_of, stuff8_byte, inet_ip_to_uint32, uint32_to_inet_ip}

-- Nothing is left of a word under an empty mask.
and-zero : (n x : ℕ) → x ≤ n → bit_and x 0 ≡ 0
and-zero n zero h = refl
and-zero zero (suc x) h = absurd (omega arith)
and-zero (suc n) (suc x) h = omega (arith, and_low (suc x) 0, and-zero n (suc x / 2) (omega arith))

-- One more bit of a mask.
module _ (m k : ℕ) (under : (x : ℕ) → bit_and x m ≡ x % k) where
  under_half : (x : ℕ) → bit_and x (2 * m + 1) ≡ x / 2 % k * 2 + x % 2
  under_half x = omega (arith, and_low x (2 * m + 1), ap (bit_and (x / 2)) half, under (x / 2))
    where
      half : (2 * m + 1) / 2 ≡ m
      half = omega arith

under1 : (x : ℕ) → bit_and x 1 ≡ x % 2
under1 x = omega (arith, and_low x 1, and-zero (x / 2) (x / 2) (omega arith))

under4 : (x : ℕ) → bit_and x 15 ≡ x % 16
under4 x = omega (
  arith,
  under_half 7 8
      (λ y. omega (arith, under_half 3 4 (λ z. omega (arith, under_half 1 2 under1 z)) y)) x,
)

byte_lem : (x : ℕ) → bit_and x 0xff ≡ x % 2 ^ 8
byte_lem x = omega (
  arith,
  under_half 127 128
      (λ y. omega (
        arith,
        under_half 63 64
            (λ z. omega (arith, under_half 31 32 (λ w. omega (arith, under_half 15 16 under4 w)) z))
            y,
      ))
      x,
)

atoi_table : all_below 256 (λ x. (atoi (itoa x)).0 == x) ≡ true
unfolding all_below atoi itoa
atoi_table = refl

atoi-itoa : (x : ℕ) → x < 256 → (atoi (itoa x)).0 ≡ x
atoi-itoa x h = ground (arith, all_below-elim 256 (λ x. (atoi (itoa x)).0 == x) x h atoi_table)

-- The printed form is the dotted one.
uint32_to_inet_ip-dotted : (n : ℕ) → uint32_to_inet_ip n ≡ dotted n
unfolding uint32_to_inet_ip dotted
uint32_to_inet_ip-dotted n =
    rw (byte_lem (n / 2 ^ 24), byte_lem (n / 2 ^ 16), byte_lem (n / 2 ^ 8), byte_lem n)

pub inet_ip_to_uint32-dotted : (n : ℕ) → n < 2 ^ 32 → inet_ip_to_uint32 (dotted n) ≡ ok n
unfolding inet_ip_to_uint32
inet_ip_to_uint32-dotted n h =
    rw
      (
        split-dotted n,
        atoi-itoa (n / 2 ^ 24 % 256) (omega arith),
        atoi-itoa (n / 2 ^ 16 % 256) (omega arith),
        atoi-itoa (n / 2 ^ 8 % 256) (omega arith),
        atoi-itoa (n % 256) (omega arith),
      )
      (ap ok (omega arith))

-- A word printed as an address is read back as the word.
pub inet_ip-uint32 : (n : ℕ) → n < 2 ^ 32 → inet_ip_to_uint32 (uint32_to_inet_ip n) ≡ ok n
inet_ip-uint32 n h = rw (uint32_to_inet_ip-dotted n) (inet_ip_to_uint32-dotted n h)

length-take : (n : ℕ) (b : Bytes) → n ≤ length b → length (take n b) ≡ n
length-take zero b h = refl
length-take (suc n) [] h = absurd (omega arith)
length-take (suc n) (c ∷ b) h = omega (arith, length-take n b (omega arith))

-- Up to eight bytes are kept, with zeros behind them; more bytes end in a panic.
pub stuff8_byte_lem :
    (b : Bytes) → stuff8_byte b ≡ (if ltb 8 (length b) then panic else ok (array_of b))
unfolding stuff8_byte
stuff8_byte_lem b = ground (arith, length-take 9 b)
