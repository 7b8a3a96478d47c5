-- ===== src/Subnetd/Laws.antt =====
-- What etcd documents of leases and transactions, and what the daemon's calls do over such a server.
use my_cni.Prelude.{
  fun_ext, ℕ, ◌≡◌, refl, ◌∙◌, ap, Bool, true, false, not, List, [], ◌∷◌, Option, none, some,
  if◌then◌else◌,
}
use my_cni.Text.{Bytes, same}
use my_cni.Exec.{Error, ok, err, mask_exists, mask_update_failed, mask_get_failed}
use my_cni.Subnetd.{
  LeaseEtcd, VersionTest, absent, present, Op, op_put, op_get, Process, mask_key, zeros,
  init_bit_mask, renew_bit_mask, watch_bit_mask, under_lease,
}

abbrev is_set : Option Bytes → Bool
is_set none = false
is_set (some v) = true

abbrev pub holds : (Bytes → Option Bytes) → VersionTest → Bool
holds c (absent k) = not (is_set (c k))
holds c (present k) = is_set (c k)

abbrev values_of : Option Bytes → List Bytes
values_of none = []
values_of (some v) = v ∷ []

-- The contents behind an operation, and the values that it returns.
abbrev pub effect : Op → (Bytes → Option Bytes) → Bytes → Option Bytes
effect (op_put k v l) c j = if same k j then some v else c j
effect (op_get k l) c j = c j

abbrev pub values_by : Op → (Bytes → Option Bytes) → List Bytes
values_by (op_put k v l) c = []
values_by (op_get k l) c = values_of (c k)

-- A lease to which nothing is attached can be revoked without loss: `Unused` says that of a lease. An
-- operation of a transaction whose test fails attaches nothing.
pub record IsLawful (E : LeaseEtcd) : Type 1 where
  pub contents : E.State → Bytes → Option Bytes
  pub IsUp : E.State → Type 0
  pub Unused : E.State → ℕ → Type 0
  pub granted : E.State → ℕ
  pub grant_up : (s : E.State) (ttl : ℕ) → IsUp s → (E.grant ttl s).0 ≡ ok (granted s)
  pub grant_unused : (s : E.State) (ttl : ℕ) → IsUp s → Unused (E.grant ttl s).1 (granted s)
  pub grant_keeps :
      (s : E.State) (ttl : ℕ) (j : Bytes) → contents (E.grant ttl s).1 j ≡ contents s j
  pub grant_stays : (s : E.State) (ttl : ℕ) → IsUp s → IsUp (E.grant ttl s).1
  pub txn_up :
      (s : E.State) (t : VersionTest) (o : Op)
      → IsUp s
      → (E.txn t o s).0
        ≡ ok (holds (contents s) t, if holds (contents s) t then values_by o (contents s) else [])
  pub txn_sets :
      (s : E.State) (t : VersionTest) (o : Op) (j : Bytes)
      → IsUp s
      → contents (E.txn t o s).1 j
        ≡ (if holds (contents s) t then effect o (contents s) j else contents s j)
  pub txn_unused :
      (s : E.State) (t : VersionTest) (o : Op) (l : ℕ)
      → IsUp s
      → holds (contents s) t ≡ false
      → Unused s l
      → Unused (E.txn t o s).1 l
  pub txn_stays : (s : E.State) (t : VersionTest) (o : Op) → IsUp s → IsUp (E.txn t o s).1
  pub revoke_up : (s : E.State) (l : ℕ) → IsUp s → (E.revoke l s).0 ≡ ok tt
  pub revoke_keeps :
      (s : E.State) (l : ℕ) (j : Bytes)
      → IsUp s
      → Unused s l
      → contents (E.revoke l s).1 j ≡ contents s j
  pub revoke_stays : (s : E.State) (l : ℕ) → IsUp s → IsUp (E.revoke l s).1

module _ {E : LeaseEtcd} (L : IsLawful E) where
  -- A process whose server answers and holds `c`, on the same host, and without a fatal error.
  pub record After (p q : Process E) (c : Bytes → Option Bytes) : Type 0 where
    pub up : L.IsUp q.server
    pub holding : (j : Bytes) → L.contents q.server j ≡ c j
    pub same_host : q.host ≡ p.host
    pub same_fatal : q.fatal ≡ p.fatal

  module _ (p : Process E) (up : L.IsUp p.server) (t : VersionTest) (o : ℕ → Op) (e : Error) where
    abbrev lease : ℕ
    lease = L.granted p.server

    abbrev leased : E.State
    leased = (E.grant 3 p.server).1

    leased_up : L.IsUp leased
    leased_up = L.grant_stays p.server 3 up

    leased_same : (j : Bytes) → L.contents leased j ≡ L.contents p.server j
    leased_same = L.grant_keeps p.server 3

    abbrev committed : E.State
    committed = (E.txn t (o lease) leased).1

    committed_up : L.IsUp committed
    committed_up = L.txn_stays leased t (o lease) leased_up

    succeeds :
        holds (L.contents leased) t ≡ true
        → under_lease E t o e p
          ≡ (ok (values_by (o lease) (L.contents leased)), record p { server = committed })
    succeeds h = rw (L.grant_up p.server 3 up, L.txn_up leased t (o lease) leased_up, h) refl

    fails :
        holds (L.contents leased) t ≡ false
        → under_lease E t o e p ≡ (err e, record p { server = (E.revoke lease committed).1 })
    fails h =
        rw
          (
            L.grant_up p.server 3 up,
            L.txn_up leased t (o lease) leased_up,
            h,
            L.revoke_up committed lease committed_up,
          )
          refl

    same_contents : L.contents leased ≡ L.contents p.server
    same_contents = fun_ext leased_same

    pub when_holds :
        holds (L.contents p.server) t ≡ true
        → (q : Process E) × (under_lease E t o e p
            ≡ (ok (values_by (o lease) (L.contents p.server)), q))
          × After p q (effect (o lease) (L.contents p.server))
    when_holds h =
        let h' : holds (L.contents leased) t ≡ true = ap (λ c. holds c t) same_contents ∙ h in
        (
          record p { server = committed },
          succeeds h'
              ∙ ap (λ c. (ok (values_by (o lease) c), record p { server = committed }))
                  same_contents,
          record {
            up = committed_up;
            holding = λ j.
                L.txn_sets leased t (o lease) j leased_up
                ∙ rw h' (ap (λ c. effect (o lease) c j) same_contents);
            same_host = refl;
            same_fatal = refl;
          },
        )

    pub when_not :
        holds (L.contents p.server) t ≡ false
        → (q : Process E) × (under_lease E t o e p ≡ (err e, q)) × After p q (L.contents p.server)
    when_not h =
        let h' : holds (L.contents leased) t ≡ false = ap (λ c. holds c t) same_contents ∙ h in
        let unused : L.Unused committed lease =
          L.txn_unused leased t (o lease) lease leased_up h' (L.grant_unused p.server 3 up) in
        (
          record p { server = (E.revoke lease committed).1 },
          fails h',
          record {
            up = L.revoke_stays committed lease committed_up;
            holding = λ j.
                L.revoke_keeps committed lease j committed_up unused
                ∙ (L.txn_sets leased t (o lease) j leased_up ∙ rw h' (leased_same j));
            same_host = refl;
            same_fatal = refl;
          },
        )

  module _ (p : Process E) (up : L.IsUp p.server) where
    -- With a mask in etcd the first call fails and leaves the mask.
    pub init-present :
        (mask : Bytes)
        → L.contents p.server mask_key ≡ some mask
        → (q : Process E) × (init_bit_mask E p ≡ (err mask_exists, q))
          × After p q (L.contents p.server)
    unfolding init_bit_mask
    init-present mask h =
        let (q, e, a) =
          when_not p up (absent mask_key) (op_put mask_key (zeros 256)) mask_exists (rw h refl) in
        (q, rw e refl, a)

    -- Without one, a mask of 256 free subnets is made.
    pub init-absent :
        L.contents p.server mask_key ≡ none
        → (q : Process E) × (init_bit_mask E p ≡ (ok tt, q))
          × After p q (λ j. if same mask_key j then some (zeros 256) else L.contents p.server j)
    unfolding init_bit_mask
    init-absent h =
        let (q, e, a) =
          when_holds p up (absent mask_key) (op_put mask_key (zeros 256)) mask_exists (rw h refl) in
        (q, rw e refl, a)

    pub watch-present :
        (mask : Bytes)
        → L.contents p.server mask_key ≡ some mask
        → (q : Process E) × (watch_bit_mask E p ≡ (ok mask, q)) × After p q (L.contents p.server)
    unfolding watch_bit_mask
    watch-present mask h =
        let (q, e, a) =
          when_holds p up (present mask_key) (op_get mask_key) mask_get_failed (rw h refl) in
        (q, rw (e, h) refl, a)

    pub watch-absent :
        L.contents p.server mask_key ≡ none
        → (q : Process E) × (watch_bit_mask E p ≡ (err mask_get_failed, q))
          × After p q (L.contents p.server)
    unfolding watch_bit_mask
    watch-absent h =
        let (q, e, a) =
          when_not p up (present mask_key) (op_get mask_key) mask_get_failed (rw h refl) in
        (q, rw e refl, a)

    pub renew-present :
        (mask new : Bytes)
        → L.contents p.server mask_key ≡ some mask
        → (q : Process E) × (renew_bit_mask E new p ≡ (ok tt, q))
          × After p q (λ j. if same mask_key j then some new else L.contents p.server j)
    unfolding renew_bit_mask
    renew-present mask new h =
        let (q, e, a) =
          when_holds p up (present mask_key) (op_put mask_key new) mask_update_failed (rw h refl) in
        (q, rw e refl, a)
