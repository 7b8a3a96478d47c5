-- ===== src/Subnetd/Overlap.antt =====
-- Two nodes that join at once.
use my_cni.Prelude.{ℕ, ◌<◌, ◌≡◌, refl, ◌∙◌, ap, subst, true, some, length, arith}
use my_cni.Text.{Bytes}
use my_cni.Net.{Notation6}
use my_cni.Exec.{Result, ok}
use my_cni.Local.Host.{SubnetConf}
use my_cni.Subnetd.{LeaseEtcd, Process, mask_key, mark, subnet_conf}
use my_cni.Subnetd.Daemon.{find_subnet, claim_subnet}
use my_cni.Subnetd.Mask.{first_free, mark_at}
use my_cni.Subnetd.Laws.{IsLawful}
use my_cni.Subnetd.Sync.{found_mask, finds, claims}

module _ {E : LeaseEtcd} (L : IsLawful E) (unmarshal_subnet : Bytes → Result SubnetConf)
    ⦃n6 : Notation6⦄ (marshal_subnet : SubnetConf → Bytes) where
  -- A read of the mask `x`.
  record Reads (p q : Process E) (x m : Bytes) : Type 0 where
    pub runs : find_subnet E unmarshal_subnet marshal_subnet p ≡ (ok (first_free x, m), q)
    pub up : L.IsUp q.server
    pub has_mask : L.contents q.server mask_key ≡ some x
    pub same_host : q.host ≡ p.host

  find_subnet-Reads :
      (p : Process E) (x m : Bytes)
      → L.IsUp p.server
      → found_mask (L.contents p.server mask_key) ≡ x
      → length x ≡ 256
      → mark (first_free x) x ≡ some m
      → (q : Process E) × Reads p q x m
  find_subnet-Reads p x m up e = subst P e known
    where
      P : Bytes → Type 0
      P x = length x ≡ 256 → mark (first_free x) x ≡ some m → (q : Process E) × Reads p q x m

      known : P (found_mask (L.contents p.server mask_key))
      known long marks =
          let (q, runs, r) = finds L unmarshal_subnet marshal_subnet p up long m marks in
          (q, record { runs = runs; up = r.up; has_mask = r.has; same_host = r.same_host })

  -- Two nodes that read the mask before either has written it: both claims succeed, one after the
  -- other, and both files hold one subnet.
  pub record Overlap (p1 p2 : Process E) (bit : ℕ) : Type 0 where
    pub m : Bytes
    pub q1 : Process E
    pub q2 : Process E
    pub r1 : Process E
    pub r2 : Process E
    pub first_reads : find_subnet E unmarshal_subnet marshal_subnet p1 ≡ (ok (bit, m), q1)
    pub second_reads :
        find_subnet E unmarshal_subnet marshal_subnet (record p2 { server = q1.server })
        ≡ (ok (bit, m), q2)
    pub first_claims :
        claim_subnet E unmarshal_subnet marshal_subnet (bit, m) (record q1 { server = q2.server })
        ≡ (ok tt, r1)
    pub second_claims :
        claim_subnet E unmarshal_subnet marshal_subnet (bit, m) (record q2 { server = r1.server })
        ≡ (ok tt, r2)
    pub first_file : r1.host.subnet_file ≡ some (marshal_subnet (subnet_conf bit))
    pub second_file : r2.host.subnet_file ≡ some (marshal_subnet (subnet_conf bit))

  -- Where two nodes join at once, each step of the code going well, both take the first free subnet:
  -- the write asks only that there is a mask, not that it is the one that was read.
  pub claim_subnet-Overlap :
      (p1 p2 : Process E)
      → L.IsUp p1.server
      → length (found_mask (L.contents p1.server mask_key)) ≡ 256
      → first_free (found_mask (L.contents p1.server mask_key)) < 256
      → p1.host.writable ≡ true
      → p2.host.writable ≡ true
      → Overlap p1 p2 (first_free (found_mask (L.contents p1.server mask_key)))
  claim_subnet-Overlap p1 p2 up long free w1 w2 =
      let x : Bytes = found_mask (L.contents p1.server mask_key) in
      let (m, marks, _, _) = mark_at (first_free x) x (omega (arith, long)) in
      let (q1, a) = find_subnet-Reads p1 x m up refl long marks in
      let (q2, b) =
        find_subnet-Reads (record p2 { server = q1.server }) x m a.up (ap found_mask a.has_mask)
          long marks in
      let (r1, e1, c) =
        claims L unmarshal_subnet marshal_subnet (record q1 { server = q2.server }) b.up x
          b.has_mask (first_free x) m (ap (λ h. h.writable) a.same_host ∙ w1) in
      let (r2, e2, d) =
        claims L unmarshal_subnet marshal_subnet (record q2 { server = r1.server }) c.up m c.marked
          (first_free x) m (ap (λ h. h.writable) b.same_host ∙ w2) in
      record {
        m = m;
        q1 = q1;
        q2 = q2;
        r1 = r1;
        r2 = r2;
        first_reads = a.runs;
        second_reads = b.runs;
        first_claims = e1;
        second_claims = e2;
        first_file = ap (λ h. h.subnet_file) c.filed;
        second_file = ap (λ h. h.subnet_file) d.filed;
      }
