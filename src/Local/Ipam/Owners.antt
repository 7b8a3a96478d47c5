-- ===== src/Local/Ipam/Owners.antt =====
-- A container keeps its address until it is released, and no other container is given it.
use my_cni.Prelude.{
  ℕ, ◌^◌, ◌<◌, ◌≡◌, ◌≢◌, refl, sym, ◌∙◌, ap, subst, true, false, List, [], ◌∷◌, Option, none, some,
  arith,
}
use my_cni.Text.{Bytes}
use my_cni.Text.Equal.{same_ne}
use my_cni.Net.{Ip, v4, Notation6, parse_ip, dotted}
use my_cni.Net.Dotted.{parse_ip-dotted}
use my_cni.Exec.{Result, ok, err}
use my_cni.Local.Store.{Data, saved, Store, key_of}
use my_cni.Local.Store.Maps.{key_of-has_key, key_of-insert_other, key_of-erase_other}
use my_cni.Local.Ipam.{Ipam, allocate_ip, release_ip}
use my_cni.Local.Ipam.Search.{IsRange}
use my_cni.Local.Ipam.Safety.{
  Allocation, given, used_up, allocate_ip-Allocation, looked, with_entry, is_used,
}
use my_cni.Local.Ipam.Steps.{
  InRange, at, key-InRange, owner, saved_inj, Call, after_call, after_calls, release_none,
  release_some, without, allocate, release,
}
use my_cni.Local.Ipam.Calls.{Holds, allocate_held, allocate-Holds, release-Holds, after_calls-Holds}

-- None of the calls releases the container.
abbrev pub Spares : Bytes → List Call → Type 0
Spares a [] = Unit
Spares a (allocate id if_name ∷ cs) = Spares a cs
Spares a (release id ∷ cs) = (id ≢ a) × Spares a cs

-- The file has the address `k` for the container.
pub record Has (a k : Bytes) (s : Store) : Type 0 where
  pub data_of : Data
  pub in_file : s.file ≡ saved data_of
  pub has : key_of a data_of.ips ≡ some k

-- Two addresses in range that are read as one are one.
in_range_inj :
    (g top : ℕ) ⦃n6 : Notation6⦄ (k j : Bytes)
    → top < 2 ^ 32
    → InRange g top k
    → InRange g top j
    → parse_ip k ≡ parse_ip j
    → k ≡ j
in_range_inj g top k j small (at n a b) (at m c d) e =
    ap dotted (number (sym (parse_ip-dotted n (omega arith)) ∙ e ∙ parse_ip-dotted m (omega arith)))
  where
    number : ◌≡◌ {A = Option Ip} (some (v4 n)) (some (v4 m)) → n ≡ m
    number e = cc

module _ (cip_next : Option Ip → Option Ip) ⦃n6 : Notation6⦄ (im : Ipam) (g top : ℕ)
    (r : IsRange cip_next im g top) (small : top < 2 ^ 32) where
  abbrev Sound : Store → Type 0
  Sound s = Holds cip_next im g top r small s

  -- What an allocation for a container without an address returns, when `a` has `k`.
  allocation-ne :
      (a k id if_name : Bytes) (d : Data) (s : Store) (q : Result (Option Ip) × Store)
      → key_of a d.ips ≡ some k
      → InRange g top k
      → Allocation g top id if_name d s q
      → q.0 ≢ ok (parse_ip k)
  allocation-ne a _ id if_name d s _ e (at m i j) (given n b c u) z = taken (
      sym u
      ∙ ap (λ x. is_used x d) (number (z ∙ ap ok (parse_ip-dotted m (omega arith))))
      ∙ key_of-has_key a (dotted m) d.ips e)
    where
      number : ◌≡◌ {A = Result (Option Ip)} (ok (some (v4 n))) (ok (some (v4 m))) → n ≡ m
      number w = cc

      taken : ¬ (false ≡ true)
      taken w = cc
  allocation-ne a k id if_name d s _ e i (used_up x u) z = failed z
    where
      failed : ¬ (◌≡◌ {A = Result (Option Ip)} (err x) (ok (parse_ip k)))
      failed w = cc

  module _ (a k : Bytes) where
    key_at : (s : Store) (h : Sound s) → Has a k s → key_of a h.content.ips ≡ some k
    key_at s h x =
        subst (λ (d : Data). key_of a d.ips ≡ some k) (saved_inj (sym x.in_file ∙ h.in_file)) x.has

    looked-Has : (s : Store) (d : Data) → key_of a d.ips ≡ some k → Has a k (looked d s)
    looked-Has s d e = record { data_of = d; in_file = refl; has = e }

    other : (b : Bytes) (d : Data) → key_of a d.ips ≡ some k → key_of b d.ips ≡ none → b ≢ a
    other b d e f i = some_none (sym e ∙ ap (λ c. key_of c d.ips) (sym i) ∙ f)
      where
        some_none : ¬ (some k ≡ none)
        some_none q = cc

    allocation-Has :
        (id if_name : Bytes) (d : Data) (s : Store) (q : Result (Option Ip) × Store)
        → key_of a d.ips ≡ some k
        → key_of id d.ips ≡ none
        → Allocation g top id if_name d s q
        → Has a k q.1
    allocation-Has id if_name d s q e f (given n b c u) = record {
      data_of = with_entry n id if_name d;
      in_file = refl;
      has =
          key_of-insert_other (dotted n) a (record { id = id; if_name = if_name }) d.ips u
            (same_ne id a (other id d e f))
          ∙ e;
    }
    allocation-Has id if_name d s q e f (used_up x u) = looked-Has s d e

    allocate-Has :
        (id if_name : Bytes) (s : Store)
        → Sound s
        → Has a k s
        → Has a k (allocate_ip cip_next im id if_name s).1
    allocate-Has id if_name s h x = by_key (key_of id h.content.ips) refl
      where
        by_key :
            (o : Option Bytes)
            → key_of id h.content.ips ≡ o
            → Has a k (allocate_ip cip_next im id if_name s).1
        by_key none e = allocation-Has id if_name h.content s _ (key_at s h x) e (
            allocate_ip-Allocation cip_next im g top r small id if_name h.content s h.sound.last_at
              h.sound.starts h.in_file h.writes e)
        by_key (some j) e =
            rw
              (allocate_held cip_next im g top r small id if_name j h.content s h.in_file e
                (key-InRange g top id j h.content.ips h.sound.inside e))
              (looked-Has s h.content (key_at s h x))

    release-Has :
        (id : Bytes) (s : Store) → id ≢ a → Sound s → Has a k s → Has a k (release_ip id s).1
    release-Has id s ne h x = by_key (key_of id h.content.ips) refl
      where
        by_key : (o : Option Bytes) → key_of id h.content.ips ≡ o → Has a k (release_ip id s).1
        by_key none e =
            rw (release_none id h.content s h.in_file e) (looked-Has s h.content (key_at s h x))
        by_key (some j) e = rw (release_some id j h.content s h.in_file h.writes e) (record {
          data_of = without j h.content;
          in_file = refl;
          has = key_of-erase_other a k j h.content.ips h.sound.valid (key_at s h x) (
              same_ne k j
                (λ i. ne (owner id a j h.content.ips h.sound.valid e (key_at s h x ∙ ap some i))));
        })

    after_calls-Has :
        (cs : List Call) (s : Store)
        → Sound s
        → Spares a cs
        → Has a k s
        → Has a k (after_calls cip_next im cs s)
    unfolding after_calls after_call
    after_calls-Has [] s h p x = x
    after_calls-Has (allocate id if_name ∷ cs) s h p x =
        after_calls-Has cs _ (allocate-Holds cip_next im g top r small id if_name s h) p
          (allocate-Has id if_name s h x)
    after_calls-Has (release id ∷ cs) s h (ne, p) x =
        after_calls-Has cs _ (release-Holds cip_next im g top r small id s h) p
          (release-Has id s ne h x)

    not_given :
        (b if_name : Bytes) (s : Store)
        → b ≢ a
        → Sound s
        → Has a k s
        → (allocate_ip cip_next im b if_name s).0 ≢ ok (parse_ip k)
    not_given b if_name s ne h x = by_key (key_of b h.content.ips) refl
      where
        at_k : InRange g top k
        at_k = key-InRange g top a k h.content.ips h.sound.inside (key_at s h x)

        by_key :
            (o : Option Bytes)
            → key_of b h.content.ips ≡ o
            → (allocate_ip cip_next im b if_name s).0 ≢ ok (parse_ip k)
        by_key none e z =
            allocation-ne a k b if_name h.content s _ (key_at s h x) at_k
              (allocate_ip-Allocation cip_next im g top r small b if_name h.content s
                h.sound.last_at h.sound.starts h.in_file h.writes e)
              z
        by_key (some j) e z =
            let at_j = key-InRange g top b j h.content.ips h.sound.inside e in
            let a_call =
              allocate_held cip_next im g top r small b if_name j h.content s h.in_file e at_j in
            let one : j ≡ k =
              in_range_inj g top j k small at_j at_k (returned (sym (ap (λ q. q.0) a_call) ∙ z)) in
            ne (owner b a j h.content.ips h.sound.valid e (key_at s h x ∙ ap some (sym one)))
          where
            returned : {x y : Option Ip} → ◌≡◌ {A = Result (Option Ip)} (ok x) (ok y) → x ≡ y
            returned w = cc

    -- From a sound file that has an address for a container, after any calls that do not release the
    -- container, the file still has the address for it, and a call for another container does not
    -- return the address.
    pub after_calls-keeps_address :
        (cs : List Call) (s : Store)
        → Sound s
        → Spares a cs
        → Has a k s
        → Has a k (after_calls cip_next im cs s)
          × ((b if_name : Bytes)
              → b ≢ a
              → (allocate_ip cip_next im b if_name (after_calls cip_next im cs s)).0
                ≢ ok (parse_ip k))
    after_calls-keeps_address cs s h p x =
        let y = after_calls-Has cs s h p x in
        (
          y,
          λ b if_name ne.
              not_given b if_name _ ne (after_calls-Holds cip_next im g top r small cs s h) y,
        )
