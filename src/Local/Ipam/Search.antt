-- ===== src/Local/Ipam/Search.antt =====
-- The loop of `allocate_ip` ends, and finds what a plain search through the subnet finds.
use mathlib.Core.Path.{ap₂}
use my_cni.Prelude.{
  ℕ, zero, suc, ◌+◌, ◌-◌, ◌≤◌, ◌<◌, ◌≡◌, ◌≢◌, refl, ◌∙◌, ap, true, false, ◌==◌, Option, none, some,
  arith, if◌then◌else◌, Bool-cases, inl, inr, ◌⊎◌,
}
use my_cni.Text.{Bytes}
use my_cni.Net.{Ip, v4, Notation6, ip_equal}
use my_cni.Exec.{Result, ok, err, ip_overflow, message}
use my_cni.Local.Store.{Store, contain}
use my_cni.Local.Ipam.{Ipam, next_ip, search_from, take}

-- A subnet of IPv4 addresses up to `top`, with the gateway `g`: what `next_ip` does in it.
pub record IsRange (cip_next : Option Ip → Option Ip) (im : Ipam) (g top : ℕ) : Type 0 where
  pub gateway_at : im.gateway ≡ some (v4 g)
  pub gateway-le-top : g ≤ top
  pub inside :
      (x : ℕ) → g ≤ x → x < top → next_ip cip_next im.subnet (some (v4 x)) ≡ ok (some (v4 (x + 1)))
  pub at_top : next_ip cip_next im.subnet (some (v4 top)) ≡ err ip_overflow

module _ ⦃n6 : Notation6⦄ (s : Store) where
  -- The first of the `count` addresses behind `x` that no container has.
  unfoldable pub first_free : ℕ → ℕ → Option ℕ
  first_free x zero = none
  first_free x (suc count) =
      if contain (some (v4 (x + 1))) s then first_free (x + 1) count else some (x + 1)

abbrev pub resume {ℓ} : {A : Type ℓ} → Option ℕ → (ℕ → A) → A → A
resume none f a = a
resume (some n) f a = f n

module _ (cip_next : Option Ip → Option Ip) ⦃n6 : Notation6⦄ (im : Ipam) (g top l : ℕ)
    (r : IsRange cip_next im g top) (id if_name : Bytes) (s : Store) where
  abbrev Answer : Type 0
  Answer = Result (Option Ip) × Store

  -- The loop whose last address is `l`.
  abbrev loop : ℕ → ℕ → Answer
  loop fuel x = search_from cip_next im (some (v4 l)) id if_name fuel (some (v4 x)) s

  abbrev give : ℕ → Answer
  give n = take id if_name (some (v4 n)) s

  abbrev used_up : Answer
  used_up = (err (message "no available ip"), s)

  -- Up to the end of the subnet, if the last address is not on the way.
  climb :
      (count fuel rest x : ℕ)
      → fuel ≡ count + rest
      → x + count ≡ top
      → l ≤ x
      → g ≤ x
      → loop fuel x ≡ resume (first_free s x count) give (loop rest top)
  unfolding first_free search_from ip_equal
  climb zero fuel rest x e t a b = ap₂ loop (omega arith) (omega arith)
  climb (suc count) zero rest x e t a b = absurd (omega arith)
  climb (suc count) (suc fuel) rest x e t a b =
      rw (r.inside x b (omega arith), search_from) (ground (arith, climb count fuel rest (x + 1)))

  -- Up to the last address.
  approach :
      (count fuel rest x : ℕ)
      → fuel ≡ suc count + rest
      → x + suc count ≡ l
      → l ≤ top
      → g ≤ x
      → loop fuel x ≡ resume (first_free s x (suc count)) give used_up
  unfolding first_free search_from ip_equal
  approach count zero rest x e t a b = absurd (omega arith)
  approach zero (suc fuel) rest x e t a b =
      rw (r.inside x b (omega arith), search_from) (ground arith)
  approach (suc count) (suc fuel) rest x e t a b =
      rw (r.inside x b (omega arith), search_from)
        (ground (arith, approach count fuel rest (x + 1)))

  -- What the loop amounts to: the addresses behind the last one up to the end of the subnet, then,
  -- unless the last one is the gateway, those behind the gateway up to the last one.
  unfoldable pub reference : Answer
  reference =
      resume (first_free s l (top - l)) give
        (if l == g then (err ip_overflow, s) else resume (first_free s g (l - g)) give used_up)

  -- At the end of the subnet.
  turn : (fuel : ℕ) → loop (suc fuel) top ≡ (if l == g then (err ip_overflow, s) else loop fuel g)
  unfolding search_from
  turn fuel = rw (r.at_top, r.gateway_at, search_from) (unfold ip_equal in ground arith)

  second :
      g ≤ l
      → l ≤ top
      → (fuel : ℕ) → l - g < fuel
      → l ≢ g
      → loop fuel g ≡ resume (first_free s g (l - g)) give used_up
  second a b fuel h n = from_gap (l - g) refl
    where
      from_gap : (k : ℕ) → l - g ≡ k → loop fuel g ≡ resume (first_free s g (l - g)) give used_up
      from_gap zero e = absurd (n (omega arith))
      from_gap (suc k) e =
          rw e (approach k fuel (fuel - suc k) g (omega arith) (omega arith) b (omega arith))

  -- With the last address in the subnet the loop ends within the fuel, and gives what the plain
  -- search gives.
  pub search-eq-reference :
      (fuel : ℕ)
      → g ≤ l
      → l ≤ top
      → top + l + 2 ≤ fuel
      → search_from cip_next im (some (v4 l)) id if_name fuel (some (v4 l)) s ≡ reference
  unfolding reference
  search-eq-reference fuel a b h =
      climb (top - l) fuel (suc rest) l (omega arith) (omega arith) (omega arith) a
      ∙ ap (resume (first_free s l (top - l)) give) (turn rest ∙ last_part (Bool-cases (l == g)))
    where
      rest : ℕ
      rest = fuel - (top - l) - 1

      last_part :
          ((l == g) ≡ true) ⊎ ((l == g) ≡ false)
          → (if l == g then (err ip_overflow, s) else loop rest g) ≡ (
              if l == g then (err ip_overflow, s) else resume (first_free s g (l - g)) give used_up)
      last_part (inl e) = rw e
      last_part (inr e) = rw e (second a b rest (omega arith) (ground arith))
