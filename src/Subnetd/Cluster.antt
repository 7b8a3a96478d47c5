-- ===== src/Subnetd/Cluster.antt =====
-- Nodes that join one after the other.
use my_cni.Prelude.{
  ℕ, ◌<◌, ◌≡◌, ◌≢◌, refl, ◌∙◌, sym, ap, subst, Bool, true, false, Option, some, length, get_elem?,
  arith, ◌==◌, List, [], ◌∷◌, if◌then◌else◌, dec_lt,
}
use my_cni.Text.{Bytes}
use my_cni.Net.{Notation6}
use my_cni.Exec.{Result, ok, panic}
use my_cni.Local.Host.{SubnetConf}
use my_cni.Subnetd.{LeaseEtcd, Process, mask_key}
use my_cni.Subnetd.Daemon.{check_local_subnet_file_settings, sync}
use my_cni.Subnetd.Mask.{first_free, first_free-le, first_free-holds, first_free-below, mark_at}
use my_cni.Subnetd.Laws.{IsLawful}
use my_cni.Subnetd.Sync.{found_mask, Taken, sync-takes_first, sync-panics}
use my_cni.Subnetd.Round.{check-filed}

-- Whether a subnet was given to a node.
unfoldable pub has : ℕ → List ℕ → Bool
has j [] = false
has j (bit ∷ bits) = if bit == j then true else has j bits

-- The abstract view: of 256 subnets the least that no node has is given out.
pub record Gives (bits after : List ℕ) : Type 0 where
  pub bit : ℕ
  pub bound : bit < 256
  pub fresh : has bit bits ≡ false
  pub least : (j : ℕ) → j < bit → has j bits ≡ true
  pub result : after ≡ bit ∷ bits

pub data Given : List ℕ → Type 0 where
  nobody : Given []
  one_more : {bits after : List ℕ} → Given bits → Gives bits after → Given after

-- Every subnet that was given out was given to one node.
abbrev pub AllDifferent : List ℕ → Type 0
AllDifferent [] = Unit
AllDifferent (bit ∷ bits) = (has bit bits ≡ false) × AllDifferent bits

-- The abstract view never gives a subnet to two nodes.
pub Given-AllDifferent : (bits : List ℕ) → Given bits → AllDifferent bits
Given-AllDifferent bits nobody = tt
Given-AllDifferent after (one_more given g) =
    subst AllDifferent (sym g.result) (g.fresh, Given-AllDifferent _ given)

abbrev pub digit : Bool → ℕ
digit true = b'1'
digit false = b'0'

module _ {E : LeaseEtcd} (L : IsLawful E) (unmarshal_subnet : Bytes → Result SubnetConf)
    ⦃n6 : Notation6⦄ (marshal_subnet : SubnetConf → Bytes) where
  -- A node without a subnet file, over the shared server, runs the daemon's sync and then has the
  -- subnet that its check reads.
  pub record Joins (s : E.State) (bits : List ℕ) (t : E.State) (after : List ℕ) : Type 0 where
    pub before : Process E
    pub behind : Process E
    pub starts : before.server ≡ s
    pub writable : before.host.writable ≡ true
    pub runs : sync E unmarshal_subnet marshal_subnet before ≡ (ok tt, behind)
    pub ends : behind.server ≡ t
    pub bit : ℕ
    pub reads : (check_local_subnet_file_settings E unmarshal_subnet behind).0 ≡ ok bit
    pub adds : after ≡ bit ∷ bits

  -- Nodes that join one after the other, the mask staying in etcd between them.
  pub data Run (s : E.State) : E.State → List ℕ → Type 0 where
    start : Run s s []
    join :
        {t u : E.State} {bits after : List ℕ} → Run s t bits → Joins t bits u after → Run s u after

  -- The mask says which subnets the nodes have.
  pub record Shows (s : E.State) (bits : List ℕ) : Type 0 where
    pub up : L.IsUp s
    pub long : length (found_mask (L.contents s mask_key)) ≡ 256
    pub bytes :
        (j : ℕ)
        → j < 256
        → get_elem? (found_mask (L.contents s mask_key)) j ≡ some (digit (has j bits))

digit-zero : (b : Bool) → some (digit b) ≡ some b'0' → b ≡ false
digit-zero true e = ground arith
digit-zero false e = refl

digit-not_zero : (b : Bool) → some (digit b) ≢ some b'0' → b ≡ true
digit-not_zero true n = refl
digit-not_zero false n = absurd (n refl)

marked_byte :
    {o : Option ℕ} (b h : Bool)
    → o ≡ some (digit h)
    → (if b then some b'1' else o) ≡ some (digit (if b then true else h))
marked_byte true h e = refl
marked_byte false h e = e

abbrev number_of : Result ℕ → ℕ
number_of (ok n) = n
number_of _ = 0

module _ {E : LeaseEtcd} (L : IsLawful E) (unmarshal_subnet : Bytes → Result SubnetConf)
    ⦃n6 : Notation6⦄ (marshal_subnet : SubnetConf → Bytes)
    (codec : (c : SubnetConf) → unmarshal_subnet (marshal_subnet c) ≡ ok c) where
  module _ (p : Process E) (bits : List ℕ)
      (shows : Shows L unmarshal_subnet marshal_subnet p.server bits) where
    abbrev mask : Bytes
    mask = found_mask (L.contents p.server mask_key)

    abbrev first : ℕ
    first = first_free mask

    gives : first < 256 → Gives bits (first ∷ bits)
    gives free = record {
      bit = first;
      bound = free;
      fresh =
          digit-zero (has first bits)
            (sym (shows.bytes first free) ∙ first_free-holds mask (omega (arith, shows.long)));
      least = λ j l.
          digit-not_zero (has j bits)
            (λ e. first_free-below mask j l (shows.bytes j (omega arith) ∙ e));
      result = refl;
    }

    shown :
        (q : Process E)
        → first < 256
        → Taken L unmarshal_subnet marshal_subnet p q mask first
        → Shows L unmarshal_subnet marshal_subnet q.server (first ∷ bits)
    unfolding has
    shown q free t =
        let (m, marks, long, at) = mark_at first mask (omega (arith, shows.long)) in
        let now : L.contents q.server mask_key ≡ some m = t.marked ∙ marks in
        record {
          up = t.up;
          long = rw now (long ∙ shows.long);
          bytes = λ j l. rw now (at j ∙ marked_byte (first == j) (has j bits) (shows.bytes j l));
        }

    one_join :
        (q : Process E) (bit : ℕ)
        → p.host.writable ≡ true
        → sync E unmarshal_subnet marshal_subnet p ≡ (ok tt, q)
        → (check_local_subnet_file_settings E unmarshal_subnet q).0 ≡ ok bit
        → Gives bits (bit ∷ bits) × Shows L unmarshal_subnet marshal_subnet q.server (bit ∷ bits)
    one_join q bit writable runs reads = elim (dec_lt first 256) [
      | yes free ↦
          let (q', runs', t) =
            sync-takes_first L unmarshal_subnet marshal_subnet p shows.up shows.long free
              writable in
          let same_end : q' ≡ q = ap (λ r. r.1) (sym runs' ∙ runs) in
          let t' : Taken L unmarshal_subnet marshal_subnet p q mask first =
            subst (λ r. Taken L unmarshal_subnet marshal_subnet p r mask first) same_end t in
          let same_bit : first ≡ bit = ap number_of (
            sym (check-filed E unmarshal_subnet marshal_subnet codec q p.host first free t'.filed)
            ∙ reads) in
          subst
            (λ b.
              Gives bits (b ∷ bits) × Shows L unmarshal_subnet marshal_subnet q.server (b ∷ bits))
            same_bit (gives free, shown q free t')
      | no full ↦
          let (q', runs', _, _) =
            sync-panics L unmarshal_subnet marshal_subnet p shows.up shows.long
              (omega (arith, first_free-le mask, shows.long)) in
          absurd (ok_panic (ap (λ r. r.0) (sym runs ∙ runs')))
    ]
      where
        ok_panic : ¬ (◌≡◌ {A = Result (Unit {0})} (ok tt) panic)
        ok_panic e = cc

  joins-Gives :
      (s t : E.State) (bits after : List ℕ)
      → Shows L unmarshal_subnet marshal_subnet s bits
      → Joins L unmarshal_subnet marshal_subnet s bits t after
      → Gives bits after × Shows L unmarshal_subnet marshal_subnet t after
  joins-Gives s t bits after shows j =
      subst (λ a. Gives bits a × Shows L unmarshal_subnet marshal_subnet t a) (sym j.adds)
        (subst
          (λ u.
            Gives bits (j.bit ∷ bits) × Shows L unmarshal_subnet marshal_subnet u (j.bit ∷ bits))
          j.ends
          (one_join j.before bits
            (subst (λ u. Shows L unmarshal_subnet marshal_subnet u bits) (sym j.starts) shows)
            j.behind j.bit j.writable j.runs j.reads))

  run-refines :
      (s : E.State)
      → Shows L unmarshal_subnet marshal_subnet s []
      → (t : E.State) (bits : List ℕ) → Run L unmarshal_subnet marshal_subnet s t bits
      → Given bits × Shows L unmarshal_subnet marshal_subnet t bits
  run-refines s shows t bits start = (nobody, shows)
  run-refines s shows u after (join r j) =
      let (given, now) = run-refines s shows _ _ r in
      let (g, then_now) = joins-Gives _ u _ after now j in (one_more given g, then_now)

  -- Nodes that join one after the other, with a mask that stays in etcd and at first shows no subnet in
  -- use, get what the abstract view gives: each the least subnet that no node has, so that no two
  -- nodes have one. At the end the mask shows which subnets the nodes have.
  pub run-Given :
      (s : E.State)
      → Shows L unmarshal_subnet marshal_subnet s []
      → (t : E.State) (bits : List ℕ) → Run L unmarshal_subnet marshal_subnet s t bits
      → Given bits × AllDifferent bits × Shows L unmarshal_subnet marshal_subnet t bits
  run-Given s shows t bits r =
      let (given, now) = run-refines s shows t bits r in (given, Given-AllDifferent bits given, now)
