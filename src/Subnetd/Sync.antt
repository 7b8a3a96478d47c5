-- ===== src/Subnetd/Sync.antt =====
-- How a node without a subnet file gets its subnet.
use my_cni.Prelude.{
  ℕ, ◌<◌, ◌≡◌, refl, ◌∙◌, sym, ap, true, false, Option, none, some, length, arith, Option-cases,
  inl, inr,
}
use my_cni.Text.{Bytes, same}
use my_cni.Text.Equal.{same_refl}
use my_cni.Net.{Notation6}
use my_cni.Exec.{Result, ok, panic, rescue}
use my_cni.Local.Host.{Host, SubnetConf}
use my_cni.Subnetd.{
  LeaseEtcd, Process, mask_key, zeros, find_unused, mark, subnet_conf, init_bit_mask,
}
use my_cni.Subnetd.Daemon.{update_local_subnet_config, or_exists, find_subnet, claim_subnet, sync}
use my_cni.Subnetd.Mask.{first_free, find_unused_lem, mark_at, mark-end}
use my_cni.Subnetd.Laws.{IsLawful, init-present, init-absent, watch-present, renew-present}

-- The mask that a node finds: a new one, if there is none.
abbrev pub found_mask : Option Bytes → Bytes
found_mask none = zeros 256
found_mask (some mask) = mask

find_256 : (mask : Bytes) → length mask ≡ 256 → find_unused 256 0 mask ≡ ok (first_free mask)
find_256 mask h =
    ap (λ n. find_unused n 0 mask) (sym h) ∙ find_unused_lem mask 0 ∙ ap ok (omega arith)

module _ {E : LeaseEtcd} (L : IsLawful E) (unmarshal_subnet : Bytes → Result SubnetConf)
    ⦃n6 : Notation6⦄ (marshal_subnet : SubnetConf → Bytes) where
  -- The host with the file of subnet `bit`.
  abbrev pub with_file : Host → ℕ → Host
  with_file h bit = record h { subnet_file = some (marshal_subnet (subnet_conf bit)) }

  -- In `q` subnet `bit` is marked in the mask, which was `mask`, and it is the subnet in the node's
  -- file; all else is as in `p`.
  pub record Taken (p q : Process E) (mask : Bytes) (bit : ℕ) : Type 0 where
    pub up : L.IsUp q.server
    pub marked : L.contents q.server mask_key ≡ mark bit mask
    pub others :
        (j : Bytes) → same mask_key j ≡ false → L.contents q.server j ≡ L.contents p.server j
    pub filed : q.host ≡ with_file p.host bit
    pub alive : q.fatal ≡ p.fatal

  -- What a claim leaves behind, whatever was in the mask.
  pub record Claimed (p q : Process E) (bit : ℕ) (m : Bytes) : Type 0 where
    pub up : L.IsUp q.server
    pub marked : L.contents q.server mask_key ≡ some m
    pub others :
        (j : Bytes) → same mask_key j ≡ false → L.contents q.server j ≡ L.contents p.server j
    pub filed : q.host ≡ with_file p.host bit
    pub alive : q.fatal ≡ p.fatal

  pub claims :
      (p : Process E)
      → L.IsUp p.server
      → (old : Bytes) → L.contents p.server mask_key ≡ some old
      → (bit : ℕ) (m : Bytes) → p.host.writable ≡ true
      → (q : Process E) × (claim_subnet E unmarshal_subnet marshal_subnet (bit, m) p ≡ (ok tt, q))
        × Claimed p q bit m
  unfolding claim_subnet update_local_subnet_config
  claims p up old has bit m writable =
      let (p3, e3, a3) = renew-present L p up old m has in
      (
        record p3 { host = with_file p.host bit },
        rw (e3, a3.same_host, writable) refl,
        record {
          up = a3.up;
          marked = a3.holding mask_key ∙ rw (same_refl mask_key) refl;
          others = λ j n. a3.holding j ∙ rw n refl;
          filed = refl;
          alive = a3.same_fatal;
        },
      )

  module _ (p : Process E) (answers : L.IsUp p.server) where
    abbrev mask : Bytes
    mask = found_mask (L.contents p.server mask_key)

    -- Behind the first call there is a mask.
    record Begun (q : Process E) : Type 0 where
      pub runs :
          rescue (init_bit_mask E) (or_exists E unmarshal_subnet marshal_subnet) p ≡ (ok tt, q)
      pub up : L.IsUp q.server
      pub has : L.contents q.server mask_key ≡ some mask
      pub others :
          (j : Bytes) → same mask_key j ≡ false → L.contents q.server j ≡ L.contents p.server j
      pub same_host : q.host ≡ p.host
      pub same_fatal : q.fatal ≡ p.fatal

    begins : (q : Process E) × Begun q
    begins = elim (Option-cases (L.contents p.server mask_key)) [
      | inl h ↦
          let (q, e, a) = init-absent L p answers h in
          (
            q,
            record {
              runs = rw e refl;
              up = a.up;
              has = a.holding mask_key ∙ rw (same_refl mask_key, h) refl;
              others = λ j n. a.holding j ∙ rw n refl;
              same_host = a.same_host;
              same_fatal = a.same_fatal;
            },
          )
      | inr (m, h) ↦
          let (q, e, a) = init-present L p answers m h in
          (
            q,
            record {
              runs = rw e refl;
              up = a.up;
              has = a.holding mask_key ∙ rw h refl;
              others = λ j n. a.holding j;
              same_host = a.same_host;
              same_fatal = a.same_fatal;
            },
          )
    ]

    module _ (long : length mask ≡ 256) where
      abbrev bit : ℕ
      bit = first_free mask

      -- The process in which the mask was read.
      pub record Read (q : Process E) : Type 0 where
        pub up : L.IsUp q.server
        pub has : L.contents q.server mask_key ≡ some mask
        pub others :
            (j : Bytes) → same mask_key j ≡ false → L.contents q.server j ≡ L.contents p.server j
        pub same_host : q.host ≡ p.host
        pub same_fatal : q.fatal ≡ p.fatal

      pub finds :
          (m : Bytes)
          → mark bit mask ≡ some m
          → (q : Process E) × (find_subnet E unmarshal_subnet marshal_subnet p ≡ (ok (bit, m), q))
            × Read q
      unfolding find_subnet
      finds m marks =
          let (p1, b) = begins in
          let (p2, e2, a2) = watch-present L p1 b.up mask b.has in
          (
            p2,
            rw (b.runs, e2, find_256 mask long, marks) refl,
            record {
              up = a2.up;
              has = a2.holding mask_key ∙ b.has;
              others = λ j n. a2.holding j ∙ b.others j n;
              same_host = a2.same_host ∙ b.same_host;
              same_fatal = a2.same_fatal ∙ b.same_fatal;
            },
          )

      -- A node without a subnet file takes the first free subnet, if there is one: it is marked in the
      -- mask and written to the file, and no other key changes; without a mask it begins with a new
      -- one.
      pub sync-takes_first :
          bit < 256
          → p.host.writable ≡ true
          → (q : Process E) × (sync E unmarshal_subnet marshal_subnet p ≡ (ok tt, q))
            × Taken p q mask bit
      unfolding sync
      sync-takes_first free writable =
          let (m, marks, _, _) = mark_at bit mask (omega (arith, long)) in
          let (p2, e2, r) = finds m marks in
          let (q, e3, c) =
            claims p2 r.up mask r.has bit m (ap (λ h. h.writable) r.same_host ∙ writable) in
          (
            q,
            rw (e2, e3) refl,
            record {
              up = c.up;
              marked = c.marked ∙ sym marks;
              others = λ j n. c.others j n ∙ r.others j n;
              filed = c.filed ∙ ap (λ h. with_file h bit) r.same_host;
              alive = c.alive ∙ r.same_fatal;
            },
          )

      -- With all subnets in use the process panics: the index behind the mask is written.
      pub sync-panics :
          bit ≡ 256
          → (q : Process E) × (sync E unmarshal_subnet marshal_subnet p ≡ (panic, q))
            × (q.host ≡ p.host)
            × (q.fatal ≡ p.fatal)
      unfolding sync find_subnet
      sync-panics full =
          let (p1, b) = begins in
          let (p2, e2, a2) = watch-present L p1 b.up mask b.has in
          (
            p2,
            rw (b.runs, e2, find_256 mask long, mark-end bit mask (omega (arith, long, full))) refl,
            a2.same_host ∙ b.same_host,
            a2.same_fatal ∙ b.same_fatal,
          )
