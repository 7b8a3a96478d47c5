-- ===== src/Subnetd/Progress.antt =====
-- Which subnet the next node gets.
use my_cni.Prelude.{
  ℕ, ◌<◌, ◌≡◌, ◌∙◌, sym, ap, subst, Bool, true, false, some, length, get_elem?, arith, ltb, List,
  [], dec_lt,
}
use my_cni.Text.{Bytes}
use my_cni.Net.{Notation6}
use my_cni.Exec.{Result, ok}
use my_cni.Local.Host.{SubnetConf}
use my_cni.Subnetd.{LeaseEtcd, Process, mask_key}
use my_cni.Subnetd.Daemon.{check_local_subnet_file_settings, sync}
use my_cni.Subnetd.Mask.{first_free, first_free-holds, first_free-below}
use my_cni.Subnetd.Laws.{IsLawful}
use my_cni.Subnetd.Sync.{found_mask, sync-takes_first}
use my_cni.Subnetd.Round.{check-filed}
use my_cni.Subnetd.Cluster.{digit, has, Given, nobody, one_more, Shows, Run, run-Given}

-- The subnets are given out in order.
next_bit :
    (bits : List ℕ) (bit : ℕ)
    → ((j : ℕ) → has j bits ≡ ltb j (length bits))
    → has bit bits ≡ false
    → ((j : ℕ) → j < bit → has j bits ≡ true)
    → bit ≡ length bits
next_bit bits bit all fresh least = elim (dec_lt (length bits) bit) [
  | yes l ↦ absurd (ground (arith, least (length bits) l, all (length bits)))
  | no n ↦ ground (arith, all bit)
]

Given-has : (bits : List ℕ) → Given bits → (j : ℕ) → has j bits ≡ ltb j (length bits)
unfolding has
Given-has bits nobody j = ground arith
Given-has after (one_more {bits = bits} given g) j =
    subst (λ a. has j a ≡ ltb j (length a)) (sym g.result)
      (ground
        (arith, Given-has bits given j, next_bit bits g.bit (Given-has bits given) g.fresh g.least))

module _ {E : LeaseEtcd} (L : IsLawful E) (unmarshal_subnet : Bytes → Result SubnetConf)
    ⦃n6 : Notation6⦄ (marshal_subnet : SubnetConf → Bytes) where
  module _ (s : E.State) (bits : List ℕ) (given : Given bits)
      (shows : Shows L unmarshal_subnet marshal_subnet s bits) (room : length bits < 256) where
    abbrev mask : Bytes
    mask = found_mask (L.contents s mask_key)

    used_at : (j : ℕ) → j < length bits → has j bits ≡ true
    used_at j l = Given-has bits given j ∙ ground arith

    free_at : has (length bits) bits ≡ false
    free_at = Given-has bits given (length bits) ∙ ground arith

    byte_at : (j : ℕ) (b : Bool) → j < 256 → has j bits ≡ b → get_elem? mask j ≡ some (digit b)
    byte_at j b l e = shows.bytes j l ∙ ap (λ h. some (digit h)) e

    not_below : ¬ (first_free mask < length bits)
    not_below l = zero_one (
        sym (first_free-holds mask (omega (arith, shows.long)))
        ∙ byte_at (first_free mask) true (omega arith) (used_at (first_free mask) l))
      where
        zero_one : ¬ (some b'0' ≡ some (digit true))
        zero_one e = ground arith

    not_above : ¬ (length bits < first_free mask)
    not_above l = first_free-below mask (length bits) l (byte_at (length bits) false room free_at)

    pub first_free-length : first_free mask ≡ length bits
    first_free-length = omega (arith, not_below, not_above)

  module _ (codec : (c : SubnetConf) → unmarshal_subnet (marshal_subnet c) ≡ ok c) where
    -- After any number of nodes below 256, one after the other, the mask staying in etcd, a node whose
    -- file can be written is served: its sync succeeds, and its check then reads the subnet whose number
    -- is that of the nodes before it.
    pub run-serves :
        (s : E.State)
        → Shows L unmarshal_subnet marshal_subnet s []
        → (p : Process E) (bits : List ℕ) → Run L unmarshal_subnet marshal_subnet s p.server bits
        → length bits < 256
        → p.host.writable ≡ true
        → (q : Process E) × (sync E unmarshal_subnet marshal_subnet p ≡ (ok tt, q))
          × ((check_local_subnet_file_settings E unmarshal_subnet q).0 ≡ ok (length bits))
    run-serves s begin p bits r room writable =
        let (given, _, shows) =
          run-Given L unmarshal_subnet marshal_subnet codec s begin p.server bits r in
        let next : first_free (found_mask (L.contents p.server mask_key)) ≡ length bits =
          first_free-length p.server bits given shows room in
        let free : first_free (found_mask (L.contents p.server mask_key)) < 256 =
          omega (arith, next) in
        let (q, e, t) =
          sync-takes_first L unmarshal_subnet marshal_subnet p shows.up shows.long free writable in
        (
          q,
          e,
          check-filed E unmarshal_subnet marshal_subnet codec q p.host _ free t.filed ∙ ap ok next,
        )
