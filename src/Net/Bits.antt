-- ===== src/Net/Bits.antt =====
-- `&`, `|` and `^` on 32-bit words against the mask of a network, as arithmetic.
use Prim.Native.Nat.{min, max, digits, bit_and, bit_or, bit_xor, bit_and-bitwise, bit_or-bitwise}
use mathlib.Core.Path.{ap₂}
use native.Mathlib.Nat.{pow-suc, one-le-pow, mul-one, mul-le-mul_right}
use my_cni.Prelude.{
  ℕ, zero, suc, ◌+◌, ◌-◌, ◌*◌, ◌/◌, ◌%◌, ◌^◌, ◌≤◌, ◌<◌, ◌≡◌, refl, sym, ap, ◌∙◌, true, ◌&&◌, arith,
  ◌==◌, dec_lt, ==_iff, all_below, all_below-elim,
}

module _ (z : ℕ → ℕ) (f : ℕ → ℕ → ℕ) where
  digits-zero : (n b : ℕ) → digits z f n 0 b ≡ z b
  digits-zero zero b = refl
  digits-zero (suc n) b = refl

  -- Fuel beyond the number itself changes nothing.
  digits_enough : (n m a b : ℕ) → a ≤ n → a ≤ m → digits z f n a b ≡ digits z f m a b
  digits_enough n m zero b p q = digits-zero n b ∙ sym (digits-zero m b)
  digits_enough zero m (suc a) b p q = absurd (omega arith)
  digits_enough (suc n) zero (suc a) b p q = absurd (omega arith)
  digits_enough (suc n) (suc m) (suc a) b p q =
      ap (λ (t : ℕ). t * 2 + f (suc a % 2) (b % 2))
        (digits_enough n m (suc a / 2) (b / 2) (omega arith) (omega arith))

  -- The lowest digit apart, if `z` is what `f` gives for a digit 0.
  lowest :
      ((b : ℕ) → z b ≡ z (b / 2) * 2 + f 0 (b % 2))
      → (a b : ℕ) → digits z f a a b ≡ digits z f (a / 2) (a / 2) (b / 2) * 2 + f (a % 2) (b % 2)
  lowest h zero b = h b
  lowest h (suc a) b =
      ap (λ (t : ℕ). t * 2 + f (suc a % 2) (b % 2))
        (digits_enough a (suc a / 2) (suc a / 2) (b / 2) (omega arith) (omega arith))

or_low : (a b : ℕ) → bit_or a b ≡ bit_or (a / 2) (b / 2) * 2 + max (a % 2) (b % 2)
or_low a b =
    bit_or-bitwise a b
    ∙ lowest (λ y. y) max (λ y. omega arith) a b
    ∙ ap (λ (t : ℕ). t * 2 + max (a % 2) (b % 2)) (sym (bit_or-bitwise (a / 2) (b / 2)))

pub and_low : (a b : ℕ) → bit_and a b ≡ bit_and (a / 2) (b / 2) * 2 + min (a % 2) (b % 2)
and_low a b =
    bit_and-bitwise a b
    ∙ lowest (λ y. 0) min (λ y. omega arith) a b
    ∙ ap (λ (t : ℕ). t * 2 + min (a % 2) (b % 2)) (sym (bit_and-bitwise (a / 2) (b / 2)))

zero-or : (b : ℕ) → bit_or 0 b ≡ b
zero-or b = bit_or-bitwise 0 b

or-zero_fuel : (n a : ℕ) → a ≤ n → bit_or a 0 ≡ a
or-zero_fuel n zero h = refl
or-zero_fuel zero (suc a) h = absurd (omega arith)
or-zero_fuel (suc n) (suc a) h =
    omega (arith, or_low (suc a) 0, or-zero_fuel n (suc a / 2) (omega arith))

double_pow : (q k : ℕ) → q * 2 ^ suc k ≡ 2 * (q * 2 ^ k)
double_pow q k = omega (arith, ap (λ (t : ℕ). q * t) (pow-suc 2 k))

-- `a | b` is a sum where `a` is a multiple of `2 ^ k` and `b` is below it.
pub or_of_fields : (k q r : ℕ) → r < 2 ^ k → bit_or (q * 2 ^ k) r ≡ q * 2 ^ k + r
or_of_fields zero q r h = ground (arith, or-zero_fuel q q (omega arith))
or_of_fields (suc k) q r h = ground (
  arith,
  pow-suc 2 k,
  double_pow q k,
  or_low (q * 2 ^ suc k) r,
  or_of_fields k q (r / 2) (omega (arith, pow-suc 2 k)),
)

and_shift : (k q m : ℕ) → bit_and (q * 2 ^ k) (m * 2 ^ k) ≡ bit_and q m * 2 ^ k
and_shift zero q m = ap₂ bit_and (mul-one q) (mul-one m) ∙ sym (mul-one (bit_and q m))
and_shift (suc k) q m = ground (
  arith,
  double_pow q k,
  double_pow m k,
  and_low (q * 2 ^ suc k) (m * 2 ^ suc k),
  and_shift k q m,
  double_pow (bit_and q m) k,
)

-- A mask of low ones keeps a number that fits.
and_ones : (j q : ℕ) → q < 2 ^ j → bit_and q (2 ^ j - 1) ≡ q
and_ones zero zero h = refl
and_ones zero (suc q) h = absurd (omega arith)
and_ones (suc j) q h = ground (
  arith,
  pow-suc 2 j,
  one-le-pow j 2,
  and_low q (2 ^ suc j - 1),
  and_ones j (q / 2) (omega (arith, pow-suc 2 j)),
)

xor_table : all_below 33 (λ h. bit_xor (2 ^ 32 - 2 ^ h) 0xffffffff == 2 ^ h - 1) ≡ true
unfolding all_below
xor_table = refl

-- `mask ^ 0xffffffff` has the ones of the host part.
pub xor_mask : (h : ℕ) → h ≤ 32 → bit_xor (2 ^ 32 - 2 ^ h) 0xffffffff ≡ 2 ^ h - 1
xor_mask h le = (==_iff _ _).0 (all_below-elim 33 _ h (omega arith) xor_table)

split_table :
    all_below 33
      (λ h. (2 ^ (32 - h) - 1) * 2 ^ h == 2 ^ 32 - 2 ^ h && 2 ^ (32 - h) * 2 ^ h == 2 ^ 32)
    ≡ true
unfolding all_below
split_table = refl

-- A mask of a network is ones above `h` zeros.
mask_split :
    (h : ℕ)
    → h ≤ 32
    → ((2 ^ (32 - h) - 1) * 2 ^ h ≡ 2 ^ 32 - 2 ^ h) × (2 ^ (32 - h) * 2 ^ h ≡ 2 ^ 32)
mask_split h le = parts (all_below-elim 33 _ h (omega arith) split_table)
  where
    parts :
        ((2 ^ (32 - h) - 1) * 2 ^ h == 2 ^ 32 - 2 ^ h && 2 ^ (32 - h) * 2 ^ h == 2 ^ 32) ≡ true
        → ((2 ^ (32 - h) - 1) * 2 ^ h ≡ 2 ^ 32 - 2 ^ h) × (2 ^ (32 - h) * 2 ^ h ≡ 2 ^ 32)
    parts t = ground arith

pub fits : (q m p : ℕ) → q * p < m * p → q < m
fits q m p lt = elim (dec_lt q m) [
  | yes h ↦ h
  | no h ↦ absurd (omega (arith, mul-le-mul_right {m = m} {n = q} p (omega arith)))
]

-- The two ends of a network of `2 ^ h` addresses, as the program computes them.
pub network_ends :
    (h q : ℕ)
    → h ≤ 32
    → q * 2 ^ h < 2 ^ 32
    → bit_or (bit_and (q * 2 ^ h) (2 ^ 32 - 2 ^ h)) (bit_xor (2 ^ 32 - 2 ^ h) 0xffffffff)
      ≡ q * 2 ^ h + (2 ^ h - 1)
network_ends h q le lt =
    rw
      (
        xor_mask h le,
        ← (mask_split h le).0,
        and_shift h q (2 ^ (32 - h) - 1),
        and_ones (32 - h) q small,
      )
      (or_of_fields h q (2 ^ h - 1) (omega (arith, one-le-pow h 2)))
  where
    small : q < 2 ^ (32 - h)
    small = fits q (2 ^ (32 - h)) (2 ^ h) (omega (arith, (mask_split h le).1))
