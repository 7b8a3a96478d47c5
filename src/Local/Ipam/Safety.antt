-- ===== src/Local/Ipam/Safety.antt =====
-- What `allocate_ip` gives a container without an address, and what it leaves in the file.
use my_cni.Prelude.{
  dec_lt, ◌==◌, ℕ, zero, suc, ◌+◌, ◌-◌, ◌^◌, ◌≤◌, ◌<◌, ◌≡◌, refl, sym, ◌∙◌, Bool, true, false, ◌∷◌,
  Option, none, some, arith, if◌then◌else◌, Bool-cases, inl, inr,
}
use my_cni.Text.{Bytes}
use my_cni.Net.{Ip, v4, Notation6, parse_ip, dotted, ip_string}
use my_cni.Exec.{message, ip_overflow, deferring, Error, Result, ok, err}
use my_cni.Local.Store.{
  Data, saved, Store, lock, unlock, read, write, key_of, insert, has_key, contain, get_ip_by_id,
  last_ip, load_data, lock_store, unlock_store, add, save,
}
use my_cni.Local.Ipam.{Ipam, take, allocate_ip, rounds, or_gateway}
use my_cni.Local.Ipam.Search.{IsRange, first_free, resume, reference, search-eq-reference}

module _ ⦃n6 : Notation6⦄ (s : Store) where
  -- A search that finds an address finds one behind its start that no container has.
  first_free-above : (x count n : ℕ) → first_free s x count ≡ some n → x < n
  unfolding first_free
  first_free-above x zero n e = cc
  first_free-above x (suc count) n e = ground (arith, first_free-above (x + 1) count n)

  first_free-below : (x count n : ℕ) → first_free s x count ≡ some n → n ≤ x + count
  unfolding first_free
  first_free-below x zero n e = cc
  first_free-below x (suc count) n e = ground (arith, first_free-below (x + 1) count n)

  first_free-unused :
      (x count n : ℕ) → first_free s x count ≡ some n → contain (some (v4 n)) s ≡ false
  unfolding first_free
  first_free-unused x zero n e = cc
  first_free-unused x (suc count) n e = ground (arith, first_free-unused (x + 1) count n)

  -- One that finds none has seen that each address has a container.
  first_free-none :
      (x count n : ℕ)
      → first_free s x count ≡ none
      → x < n
      → n ≤ x + count
      → contain (some (v4 n)) s ≡ true
  unfolding first_free
  first_free-none x zero n e a b = absurd (omega arith)
  first_free-none x (suc count) n e a b = ground (arith, first_free-none (x + 1) count n)

-- What the store is after a call that reads `d`, and after one that also writes `e`.
abbrev pub looked : Data → Store → Store
looked d s = record s { data_now = d; file = saved d; trace = unlock ∷ read ∷ lock ∷ s.trace }

abbrev pub changed : Data → Store → Store
changed d s = record s {
  data_now = d;
  file = saved d;
  trace = unlock ∷ write ∷ read ∷ lock ∷ s.trace;
}

abbrev pub with_entry : ℕ → Bytes → Bytes → Data → Data
with_entry n id if_name d = record {
  ips = insert (dotted n) (record { id = id; if_name = if_name }) d.ips;
  last = dotted n;
}

abbrev pub is_used : ℕ → Data → Bool
is_used n d = has_key (dotted n) d.ips

-- The two ends of an allocation for a new container: an address of the subnet behind the gateway
-- that was free, written to the file, or an error where each of them has a container.
pub data Allocation (g top : ℕ) (id if_name : Bytes) (d : Data) (s : Store)
    : Result (Option Ip) × Store → Type 0 where
  given :
      (n : ℕ)
      → g < n
      → n ≤ top
      → is_used n d ≡ false
      → Allocation g top id if_name d s (ok (some (v4 n)), changed (with_entry n id if_name d) s)
  used_up :
      (e : Error)
      → ((n : ℕ) → g < n → n ≤ top → is_used n d ≡ true)
      → Allocation g top id if_name d s (err e, looked d s)

module _ (cip_next : Option Ip → Option Ip) ⦃n6 : Notation6⦄ (im : Ipam) (g top : ℕ)
    (r : IsRange cip_next im g top) (small : top < 2 ^ 32) where
  -- The address that the search starts behind.
  pub record StartsAt (l : ℕ) (d : Data) : Type 0 where
    pub from : or_gateway im (parse_ip d.last) ≡ some (v4 l)
    pub low : g ≤ l
    pub high : l ≤ top

  module _ (id if_name : Bytes) (d : Data) (s : Store) (l : ℕ) (a : StartsAt l d) where
    abbrev opened : Store
    opened = record s { data_now = d; file = saved d; trace = read ∷ lock ∷ s.trace }

    allocate_new :
        s.file ≡ saved d
        → key_of id d.ips ≡ none
        → allocate_ip cip_next im id if_name s
          ≡ deferring unlock_store (reference cip_next im g top l r id if_name) opened
    unfolding allocate_ip lock_store unlock_store load_data get_ip_by_id last_ip
    allocate_new f k = rw (
      f,
      k,
      a.from,
      search-eq-reference cip_next im g top l r id if_name opened rounds a.low a.high (omega arith),
    )

    free_is : (n : ℕ) → contain (some (v4 n)) opened ≡ is_used n d
    unfolding contain ip_string
    free_is n = refl

    give_lem :
        s.writable ≡ true
        → (n : ℕ) → g < n
        → n ≤ top
        → is_used n d ≡ false
        → Allocation g top id if_name d s
            (deferring unlock_store (take id if_name (some (v4 n))) opened)
    unfolding add save unlock_store ip_string
    give_lem w n b c u = rw w (given n b c u)

    full_lem :
        (e : Error)
        → ((n : ℕ) → g < n → n ≤ top → is_used n d ≡ true)
        → Allocation g top id if_name d s (deferring unlock_store (λ t. (err e, t)) opened)
    unfolding unlock_store
    full_lem e u = used_up e u

    abbrev Behind : ℕ → ℕ → Type 0
    Behind x y = (n : ℕ) → x < n → n ≤ y → is_used n d ≡ true

    abbrev give : ℕ → Result (Option Ip) × Store
    give n = take id if_name (some (v4 n)) opened

    abbrev Closes : Result (Option Ip) × Store → Type 0
    Closes x = Allocation g top id if_name d s (deferring unlock_store (λ t. x) opened)

    all_used : Behind l top → Behind g l → Behind g top
    all_used h k n b c = elim (dec_lt l n) [ yes p ↦ h n p c | no p ↦ k n b (omega arith) ]

    -- The second part of the search, from the gateway to the last address.
    second_part :
        s.writable ≡ true
        → Behind l top
        → (m : Option ℕ) → first_free opened g (l - g) ≡ m
        → Closes (resume m give (err (message "no available ip"), opened))
    second_part w h none e = full_lem (message "no available ip") (
        all_used h (λ n b c.
          sym (free_is n) ∙ first_free-none opened g (l - g) n e b (omega (arith, a.low))))
    second_part w h (some n) e =
        give_lem w n (first_free-above opened g (l - g) n e)
          (omega (arith, a.low, a.high, first_free-below opened g (l - g) n e))
          (sym (free_is n) ∙ first_free-unused opened g (l - g) n e)

    -- The end of the first part: the search turns unless the last address is the gateway.
    at_end :
        s.writable ≡ true
        → Behind l top
        → Closes (
            if l == g
            then (err ip_overflow, opened)
            else resume
                (first_free opened g (l - g))
                give
                (err (message "no available ip"), opened))
    at_end w h = elim (Bool-cases (l == g)) [
      | inl e ↦ rw e (full_lem ip_overflow (λ n b c. h n (ground (arith, e, b)) c))
      | inr e ↦ rw e (second_part w h (first_free opened g (l - g)) refl)
    ]

    both_parts :
        s.writable ≡ true
        → (m : Option ℕ) → first_free opened l (top - l) ≡ m
        → Closes (
            resume m give (
              if l == g
              then (err ip_overflow, opened)
              else resume
                  (first_free opened g (l - g))
                  give
                  (err (message "no available ip"), opened)))
    both_parts w none e = at_end w (λ n b c.
        sym (free_is n) ∙ first_free-none opened l (top - l) n e b (omega (arith, a.high)))
    both_parts w (some n) e =
        give_lem w n (omega (arith, a.low, first_free-above opened l (top - l) n e))
          (omega (arith, a.high, first_free-below opened l (top - l) n e))
          (sym (free_is n) ∙ first_free-unused opened l (top - l) n e)

    -- A container without an address gets a free one of the subnet, which the file then has for it,
    -- or, where each address has a container, an error that changes nothing; either way the lock is
    -- free again.
    pub allocate_ip-Allocation :
        s.file ≡ saved d
        → s.writable ≡ true
        → key_of id d.ips ≡ none
        → Allocation g top id if_name d s (allocate_ip cip_next im id if_name s)
    unfolding reference
    allocate_ip-Allocation f w k =
        rw (allocate_new f k) (both_parts w (first_free opened l (top - l)) refl)
