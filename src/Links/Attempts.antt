-- ===== src/Links/Attempts.antt =====
-- How often a pair of links is asked for.
use my_cni.Prelude.{
  ◌≢◌, ℕ, zero, suc, ◌+◌, ◌≤◌, ◌≡◌, refl, ◌∙◌, subst, Bool, true, false, ◌&&◌, [], ◌∷◌, arith,
  if◌then◌else◌, Bool-cases, inl, inr,
}
use my_cni.Text.{Bytes, same}
use my_cni.Exec.{Exec, Error, Result, ok, err, panic, hang, pure, rescue, continue, handle, ◌>>=◌}
use my_cni.Exec.Keeps.{Keeps, Keeps-pure, Keeps-raise, keeps_rules}
use my_cni.Kernel.{World, Link, NewLink}
use my_cni.Links.{
  is_exist, make_veth_pair, peer_exists, random_veth_name, mac_of, peer_name_of, retry, retry_if,
  veth_rounds, make_veth,
}

-- The count grows by at most `k`, whatever `m` returns.
pub record Grows {S A : Type 0} (count : S → ℕ) (k : ℕ) (m : Exec S A) : Type 0 where
  pub at : (s : S) → count (m s).1 ≤ count s + k

module _ {S A : Type 0} {count : S → ℕ} where
  Grows-Keeps : (k : ℕ) (m : Exec S A) → Keeps count m → Grows count k m
  Grows-Keeps k m h = record { at = λ s. omega (arith, h.at s) }

  Grows-le : (j k : ℕ) (m : Exec S A) → j ≤ k → Grows count j m → Grows count k m
  Grows-le j k m h g = record { at = λ s. omega (arith, g.at s) }

  handled :
      (k : ℕ) (h : Error → Exec S A) (r : Result A) (s : S)
      → ((e : Error) → Grows count k (h e))
      → count (handle h (r, s)).1 ≤ count s + k
  handled k h (ok a) s g = omega arith
  handled k h (err e) s g = (g e).at s
  handled k h panic s g = omega arith
  handled k h hang s g = omega arith

  Grows-rescue :
      (j k : ℕ) (m : Exec S A) (h : Error → Exec S A)
      → Grows count j m
      → ((e : Error) → Grows count k (h e))
      → Grows count (j + k) (rescue m h)
  Grows-rescue j k m h gm gh = record {
    at = λ s. omega (arith, gm.at s, handled k h (m s).0 (m s).1 gh);
  }

module _ {S A B : Type 0} {count : S → ℕ} where
  continued :
      (k : ℕ) (f : A → Exec S B) (r : Result A) (s : S)
      → ((a : A) → Grows count k (f a))
      → count (continue f (r, s)).1 ≤ count s + k
  continued k f (ok a) s g = (g a).at s
  continued k f (err e) s g = omega arith
  continued k f panic s g = omega arith
  continued k f hang s g = omega arith

  Grows-bind :
      (j k : ℕ) (m : Exec S A) (f : A → Exec S B)
      → Grows count j m
      → ((a : A) → Grows count k (f a))
      → Grows count (j + k) (m >>= f)
  Grows-bind j k m f gm gf = record {
    at = λ s. omega (arith, gm.at s, continued k f (m s).0 (m s).1 gf);
  }

-- A count of the requests for links: only `netlink.LinkAdd` adds to it, and one each time.
pub record Counts (W : World) : Type 0 where
  pub count : W.bpf.State → ℕ
  pub add : (l : NewLink) (s : W.bpf.State) → count (W.link_add l s).1 ≡ count s + 1
  pub by_name : (n : Bytes) → Keeps count (W.link_by_name n)
  pub del : (n : Bytes) → Keeps count (W.link_del n)
  pub random : (n : ℕ) → Keeps count (W.random n)

module _ {W : World} (C : Counts W) where
  mac_of-Keeps : (m : Bytes) → Keeps C.count (mac_of W m)
  mac_of-Keeps [] = search keeps_rules
  mac_of-Keeps (c ∷ s) = search keeps_rules

  peer_exists-Keeps : (n : Bytes) → Keeps C.count (peer_exists W n)
  unfolding peer_exists
  peer_exists-Keeps n = search (keeps_rules, C.by_name)

  peer_name_of-Keeps : (p : Bytes) → Keeps C.count (peer_name_of W p)
  unfolding random_veth_name
  peer_name_of-Keeps [] = search (keeps_rules, C.random)
  peer_name_of-Keeps (c ∷ s) = search keeps_rules

  retry_if-Keeps : (b : Bool) → Keeps C.count (retry_if W b)
  retry_if-Keeps true = search keeps_rules
  retry_if-Keeps false = search keeps_rules

  retry-Keeps : (v p : Bytes) (e : Error) → Keeps C.count (retry W v p e)
  retry-Keeps v p e = search (keeps_rules, peer_exists-Keeps, retry_if-Keeps)

  added : (l : NewLink) → Grows C.count 1 (W.link_add l)
  added l = record { at = λ s. omega (arith, C.add l s) }

  pair-Grows :
      (n p : Bytes) (mtu : ℕ) (m : Bytes) (ns : W.Ns)
      → Grows C.count 1 (make_veth_pair W n p mtu m ns)
  unfolding make_veth_pair
  pair-Grows n p mtu m ns = Grows-bind 0 1 _ _ (Grows-Keeps 0 _ (mac_of-Keeps m)) (λ a.
      Grows-bind 1 0 _ _ (added _)
        (λ u. Grows-Keeps 0 _ (search (keeps_rules, C.by_name, C.del) depth 8)))

  attempt-Grows :
      (n p : Bytes) (mtu : ℕ) (m : Bytes) (ns : W.Ns)
      → Grows {A = Bytes × Link} C.count 1
          (make_veth_pair W n p mtu m ns >>= λ link. pure (p, link))
  attempt-Grows n p mtu m ns =
      Grows-bind 1 0 _ _ (pair-Grows n p mtu m ns) (λ l. Grows-Keeps 0 _ (Keeps-pure _))

  rounds-Grows :
      (rounds : ℕ) (n v : Bytes) (mtu : ℕ) (m : Bytes) (ns : W.Ns)
      → Grows C.count rounds (veth_rounds W rounds n v mtu m ns)
  unfolding veth_rounds
  rounds-Grows zero n v mtu m ns = Grows-Keeps 0 _ (Keeps-raise _)
  rounds-Grows (suc rounds) n v mtu m ns =
      subst (λ k. Grows C.count k (veth_rounds W (suc rounds) n v mtu m ns)) (omega arith)
        (Grows-bind 0 (1 + rounds) _ _ (Grows-Keeps 0 _ (peer_name_of-Keeps v)) (λ p.
          Grows-rescue 1 rounds _ _ (attempt-Grows n p mtu m ns) (λ e.
            Grows-le (0 + rounds) rounds _ (omega arith) (
              Grows-bind 0 rounds _ _ (Grows-Keeps 0 _ (retry-Keeps v p e))
                (λ u. rounds-Grows rounds n v mtu m ns)))))

  stops :
      (f : Unit {0} → Exec W.bpf.State (Bytes × Link)) (r : Result (Unit {0})) (s : W.bpf.State)
      → r ≢ ok tt
      → C.count (continue f (r, s)).1 ≡ C.count s
  stops f (ok tt) s n = absurd (n refl)
  stops f (err e) s n = refl
  stops f panic s n = refl
  stops f hang s n = refl

  -- With a name given for the host's end, an error is never followed by another round.
  not_again :
      (c : ℕ) (v : Bytes) (r : Result Bool) (s : W.bpf.State)
      → (continue (λ taken. retry_if W (taken && same (c ∷ v) [])) (r, s)).0 ≢ ok tt
  unfolding same
  not_again c v (ok true) s e = cc
  not_again c v (ok false) s e = cc
  not_again c v (err x) s e = cc
  not_again c v panic s e = cc
  not_again c v hang s e = cc

  retry-ne-ok :
      (c : ℕ) (v p : Bytes) (e : Error) (s : W.bpf.State) → (retry W (c ∷ v) p e s).0 ≢ ok tt
  retry-ne-ok c v p e s = elim (Bool-cases (is_exist e)) [
    | inl x ↦ rw x (not_again c v (peer_exists W p s).0 (peer_exists W p s).1)
    | inr x ↦ rw x (λ q. cc)
  ]

  gives_up :
      (c : ℕ) (v p : Bytes) (e : Error) (f : Unit {0} → Exec W.bpf.State (Bytes × Link))
      → Keeps C.count (retry W (c ∷ v) p e >>= f)
  gives_up c v p e f = record {
    at = λ s.
        stops f (retry W (c ∷ v) p e s).0 (retry W (c ∷ v) p e s).1 (retry-ne-ok c v p e s)
        ∙ (retry-Keeps (c ∷ v) p e).at s;
  }

  named-Grows :
      (rounds : ℕ) (n : Bytes) (c : ℕ) (v : Bytes) (mtu : ℕ) (m : Bytes) (ns : W.Ns)
      → Grows C.count 1 (veth_rounds W (suc rounds) n (c ∷ v) mtu m ns)
  unfolding veth_rounds
  named-Grows rounds n c v mtu m ns =
      Grows-bind 0 1 _ _ (Grows-Keeps 0 _ (peer_name_of-Keeps (c ∷ v))) (λ p.
        Grows-rescue 1 0 _ _ (attempt-Grows n p mtu m ns)
          (λ e. Grows-Keeps 0 _ (gives_up c v p e (λ x. veth_rounds W rounds n (c ∷ v) mtu m ns))))

  -- The kernel is asked for a pair of links at most ten times, and at most once where the name of the
  -- host's end is given, whatever it answers.
  pub make_veth-attempts :
      (n v : Bytes) (mtu : ℕ) (m : Bytes) (ns : W.Ns) (s : W.bpf.State)
      → C.count (make_veth W n v mtu m ns s).1 ≤ C.count s + (if same v [] then 10 else 1)
  unfolding make_veth same
  make_veth-attempts n [] mtu m ns s = (rounds-Grows 10 n [] mtu m ns).at s
  make_veth-attempts n (c ∷ v) mtu m ns s = (named-Grows 9 n c v mtu m ns).at s
