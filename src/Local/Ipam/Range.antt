-- ===== src/Local/Ipam/Range.antt =====
-- An IPv4 subnet of at least two addresses: `new_ipam` reads it, and `next_ip` walks through it.
use native.Mathlib.Nat.{one-le-pow, pow-suc, div-mul-le_self, lt-mul-div-succ}
use my_cni.Prelude.{
  ℕ, suc, ◌+◌, ◌-◌, ◌*◌, ◌/◌, ◌^◌, ◌≤◌, ◌<◌, ◌≡◌, refl, ap, ◌==◌, ==_refl, Option, some, arith,
}
use my_cni.Net.{Ip, v4, Notation6, contains, network, masked}
use my_cni.Net.Bits.{fits}
use my_cni.Net.Dotted.{parse_cidr-dotted}
use my_cni.Exec.{ok, err, ip_overflow}
use my_cni.Utils.Subnet.{low, cidr_text}
use my_cni.Local.Ipam.{Ipam, next_ip, new_ipam}
use my_cni.Local.Ipam.Search.{IsRange}

-- "NextIP returns IP incremented by 1."
abbrev pub Increments : (Option Ip → Option Ip) → Type 0
Increments f = (x : ℕ) → x < 2 ^ 32 - 1 → f (some (v4 x)) ≡ some (v4 (x + 1))

module _ (q p x : ℕ) where
  div-eq : 0 < p → q * p ≤ x → x < q * p + p → x / p ≡ q
  div-eq h a b = omega (
    arith,
    fits (x / p) (q + 1) p (omega (arith, div-mul-le_self x p)),
    fits q (x / p + 1) p (omega (arith, lt-mul-div-succ x h)),
  )

  div-gt : 0 < p → q * p + p ≤ x → q < x / p
  div-gt h a = omega (arith, fits (q + 1) (x / p + 1) p (omega (arith, lt-mul-div-succ x h)))

-- The manager of the subnet that `n` lies in.
abbrev pub manager : ℕ → ℕ → Ipam
manager n ones = record { subnet = network (v4 n) ones; gateway = some (v4 (low n ones + 1)) }

abbrev pub size_of : ℕ → ℕ
size_of ones = 2 ^ (32 - ones)

two-le : (k : ℕ) → 2 ≤ 2 ^ suc k
two-le k = omega (arith, pow-suc 2 k, one-le-pow k 2)

module _ (cip_next : Option Ip → Option Ip) (step : Increments cip_next) (n ones : ℕ)
    (le : ones ≤ 31) where
  contains_at :
      (x : ℕ)
      → contains (manager n ones).subnet (some (v4 x))
        ≡ (x / size_of ones == low n ones / size_of ones)
  unfolding contains masked
  contains_at x = refl

  low-div : low n ones / size_of ones ≡ n / size_of ones
  low-div =
      div-eq (n / (size_of ones)) (size_of ones) (low n ones)
        (omega (arith, one-le-pow (32 - ones) 2)) (omega arith)
        (omega (arith, one-le-pow (32 - ones) 2))

  next_inside :
      (x : ℕ)
      → low n ones ≤ x
      → x + 1 < low n ones + size_of ones
      → low n ones + size_of ones < 2 ^ 32
      → next_ip cip_next (manager n ones).subnet (some (v4 x)) ≡ ok (some (v4 (x + 1)))
  unfolding next_ip
  next_inside x a b t = rw (
    step x (omega arith),
    contains_at (x + 1),
    low-div,
    div-eq (n / (size_of ones)) (size_of ones) (x + 1) (omega (arith, one-le-pow (32 - ones) 2))
        (omega arith) (omega arith),
    ==_refl (n / (size_of ones)),
  )

  next_outside :
      low n ones + size_of ones < 2 ^ 32
      → next_ip cip_next (manager n ones).subnet (some (v4 (low n ones + size_of ones - 1)))
        ≡ err ip_overflow
  unfolding next_ip
  next_outside t =
      rw
        (
          step (low n ones + size_of ones - 1) (omega arith),
          contains_at (low n ones + size_of ones - 1 + 1),
          low-div,
        )
        (ground (
          arith,
          div-gt (n / size_of ones) (size_of ones) (low n ones + size_of ones - 1 + 1)
              (omega (arith, one-le-pow (32 - ones) 2)) (omega (arith, one-le-pow (32 - ones) 2)),
        ))

  exponent : 32 - ones ≡ suc (31 - ones)
  exponent = omega arith

  -- In a subnet of at least two addresses that ends below the address space, the step to the next
  -- address goes from the gateway through each address up to the last one, and fails there.
  pub range-IsRange :
      low n ones + size_of ones < 2 ^ 32
      → IsRange cip_next (manager n ones) (low n ones + 1) (low n ones + size_of ones - 1)
  range-IsRange t = record {
    gateway_at = refl;
    gateway-le-top = omega (arith, two-le (31 - ones), ap (λ (k : ℕ). 2 ^ k) exponent);
    inside = λ x a b. next_inside x (omega arith) (omega arith) t;
    at_top = next_outside t;
  }

  -- A subnet text is read to its manager.
  pub new_ipam-cidr_text :
      ⦃n6 : Notation6⦄
      → n < 2 ^ 32
      → low n ones + size_of ones < 2 ^ 32
      → new_ipam cip_next (cidr_text n ones) ≡ ok (manager n ones)
  unfolding new_ipam masked
  new_ipam-cidr_text w t = rw (
    parse_cidr-dotted n ones w (omega arith),
    next_inside (low n ones) (omega arith)
        (omega (arith, two-le (31 - ones), ap (λ (k : ℕ). 2 ^ k) exponent)) t,
  )
