-- ===== src/Examples/Daemon.antt =====
-- Examples of the subnet daemon: an etcd server in memory, whose leases do not expire.
use my_cni.Prelude.{
  ℕ, zero, suc, ◌+◌, ◌<◌, ◌≡◌, refl, sym, subst, ap, ◌∙◌, Bool, true, false, List, [], ◌∷◌, Option,
  none, some, arith, length, take, drop, ◌++◌, if◌then◌else◌,
}
use my_cni.Text.{Bytes, same}
use my_cni.Exec.{Result, ok, err, panic, message}
use my_cni.Etcd.Memory.{look}
use my_cni.Local.Host.{Host, SubnetConf}
use my_cni.Local.Store.{File, no_data}
use my_cni.Subnetd.{
  LeaseEtcd, Op, op_put, op_get, Process, Kube, mask_key, zeros, init_bit_mask, watch_bit_mask,
  find_unused, mark, renew_bit_mask,
}
use my_cni.Subnetd.Daemon.{
  find_subnet, claim_subnet, update_local_subnet_config, sync, round,
  check_local_subnet_file_settings,
}
use my_cni.Subnetd.Mask.{first_free, length-zeros, zeros-free}
use my_cni.Subnetd.Laws.{IsLawful, holds, values_by, effect}
use my_cni.Subnetd.Sync.{found_mask, Taken, sync-takes_first, sync-panics}
use my_cni.Subnetd.Round.{check-filed, first_round-fatal}
use my_cni.Subnetd.Cluster.{has, Shows, start, join, Joins, Given, AllDifferent, run-Given}
use my_cni.Subnetd.Progress.{run-serves}
use my_cni.Subnetd.Overlap.{Overlap, claim_subnet-Overlap}
use my_cni.Examples.{no_v6}

pub record Shared : Type 0 where
  pub store : List (Bytes × Bytes)
  pub next : ℕ

abbrev contents : Shared → Bytes → Option Bytes
contents s j = look j s.store

abbrev written : Op → Shared → Shared
written (op_put k v l) s = record s { store = (k, v) ∷ s.store }
written (op_get k l) s = s

abbrev committed : Bool → Op → Shared → Result (Bool × List Bytes) × Shared
committed true o s = (ok (true, values_by o (contents s)), written o s)
committed false o s = (ok (false, []), s)

abbrev shared : LeaseEtcd
shared = record {
  State = Shared;
  grant = λ ttl s. (ok s.next, record s { next = s.next + 1 });
  revoke = λ l s. (ok tt, s);
  txn = λ t o s. committed (holds (contents s) t) o s;
  values_under = λ p s. (ok [], s);
}

txn_up :
    (t : Bool) (o : Op) (s : Shared)
    → (committed t o s).0 ≡ ok (t, if t then values_by o (contents s) else [])
txn_up true o s = refl
txn_up false o s = refl

txn_sets :
    (t : Bool) (o : Op) (s : Shared) (j : Bytes)
    → contents (committed t o s).1 j ≡ (if t then effect o (contents s) j else contents s j)
txn_sets true (op_put k v l) s j = refl
txn_sets true (op_get k l) s j = refl
txn_sets false o s j = refl

shared-IsLawful : IsLawful shared
shared-IsLawful = record {
  contents = contents;
  IsUp = λ s. Unit {0};
  Unused = λ s l. Unit {0};
  granted = λ s. s.next;
  grant_up = λ s ttl up. refl;
  grant_unused = λ s ttl up. tt;
  grant_keeps = λ s ttl j. refl;
  grant_stays = λ s ttl up. tt;
  txn_up = λ s t o up. txn_up (holds (contents s) t) o s;
  txn_sets = λ s t o j up. txn_sets (holds (contents s) t) o s j;
  txn_unused = λ s t o l up h u. tt;
  txn_stays = λ s t o up. tt;
  revoke_up = λ s l up. refl;
  revoke_keeps = λ s l j up u. refl;
  revoke_stays = λ s l up. tt;
}

-- A codec for the subnet file.
abbrev marshal : SubnetConf → Bytes
marshal c = length c.subnet ∷ (c.subnet ++ c.bridge)

abbrev unmarshal : Bytes → Result SubnetConf
unmarshal [] = err (message "unexpected end of JSON input")
unmarshal (n ∷ s) = ok (record { subnet = take n s; bridge = drop n s })

take-append : (s t : Bytes) → take (length s) (s ++ t) ≡ s
take-append [] t = refl
take-append (c ∷ s) t = ap (λ r. c ∷ r) (take-append s t)

drop-append : (s t : Bytes) → drop (length s) (s ++ t) ≡ t
drop-append [] t = refl
drop-append (c ∷ s) t = drop-append s t

codec : (c : SubnetConf) → unmarshal (marshal c) ≡ ok c
codec c = rw (take-append c.subnet c.bridge, drop-append c.subnet c.bridge) refl

abbrev host : Host
host = record {
  subnet_file = none;
  writable = true;
  stores = λ p. record { data_now = no_data; file = File.absent; writable = true; trace = [] };
  lockable = λ p. true;
  closed = [];
  printed = [];
}

abbrev fresh : Process shared
fresh = record { server = record { store = []; next = 1 }; host = host; fatal = none }

abbrev kube : Kube
kube = record { build_config = ok tt; nodes = ok [] }

up : (s : Shared) → shared-IsLawful.IsUp s
unfolding shared-IsLawful
up s = tt

abbrev mask_in : Shared → Bytes
mask_in s = found_mask (shared-IsLawful.contents s mask_key)

no_mask : mask_in fresh.server ≡ zeros 256
unfolding shared-IsLawful
no_mask = refl

long : length (mask_in fresh.server) ≡ 256
long = rw no_mask (length-zeros 256)

first_is_free : first_free (mask_in fresh.server) ≡ 0
unfolding first_free zeros shared-IsLawful
first_is_free = refl

some_free : first_free (mask_in fresh.server) < 256
some_free = omega (arith, first_is_free)

first_round-fatal_example :
    (q : Process shared) × (round shared unmarshal marshal kube fresh
      ≡ (panic, record q { fatal = some (message "Invalid subnet cidr in subnet.json!") }))
    × Taken shared-IsLawful unmarshal marshal fresh q
        (mask_in fresh.server)
        (first_free (mask_in fresh.server))
    × ((check_local_subnet_file_settings shared unmarshal q).0
        ≡ ok (first_free (mask_in fresh.server)))
first_round-fatal_example =
    first_round-fatal shared unmarshal marshal codec shared-IsLawful kube fresh (up fresh.server)
      long some_free refl refl

claim_subnet-Overlap_example :
    Overlap shared-IsLawful unmarshal marshal fresh fresh (first_free (mask_in fresh.server))
claim_subnet-Overlap_example =
    claim_subnet-Overlap shared-IsLawful unmarshal marshal fresh fresh (up fresh.server) long
      some_free refl refl

-- A cluster whose subnets are all in use.
abbrev ones : ℕ → Bytes
ones zero = []
ones (suc n) = b'1' ∷ ones n

abbrev full : Process shared
full = record fresh { server = record { store = (mask_key, ones 256) ∷ []; next = 1 } }

full-long : length (mask_in full.server) ≡ 256
unfolding shared-IsLawful same
full-long = refl

full-full : first_free (mask_in full.server) ≡ 256
unfolding shared-IsLawful same first_free
full-full = refl

sync-panics_example :
    (q : Process shared) × (sync shared unmarshal marshal full ≡ (panic, q))
    × (q.host ≡ full.host)
    × (q.fatal ≡ full.fatal)
sync-panics_example =
    sync-panics shared-IsLawful unmarshal marshal full (up full.server) full-long full-full

-- One node joins.
nothing_shown : Shows shared-IsLawful unmarshal marshal fresh.server []
unfolding has
nothing_shown = record {
  up = up fresh.server;
  long = long;
  bytes = λ j l. rw no_mask (zeros-free 256 j l);
}

abbrev joined : Process shared
joined = (sync shared unmarshal marshal fresh).1

joins_well : sync shared unmarshal marshal fresh ≡ (ok tt, joined)
unfolding sync find_subnet claim_subnet init_bit_mask watch_bit_mask same find_unused zeros mark
    renew_bit_mask update_local_subnet_config
joins_well = refl

reads_first : (check_local_subnet_file_settings shared unmarshal joined).0 ≡ ok 0
reads_first =
    let (q, e, t) =
      sync-takes_first shared-IsLawful unmarshal marshal fresh (up fresh.server) long some_free
        refl in
    subst (λ r. (check_local_subnet_file_settings shared unmarshal r).0 ≡ ok 0)
      (ap (λ r. r.1) (sym e ∙ joins_well))
      (check-filed shared unmarshal marshal codec q fresh.host (first_free (mask_in fresh.server))
          some_free t.filed
        ∙ ap ok first_is_free)

joins : Joins shared-IsLawful unmarshal marshal fresh.server [] joined.server (0 ∷ [])
joins = record {
  before = fresh;
  behind = joined;
  starts = refl;
  writable = refl;
  runs = joins_well;
  ends = refl;
  bit = 0;
  reads = reads_first;
  adds = refl;
}

run-Given_example :
    Given (0 ∷ [])
    × AllDifferent (0 ∷ [])
    × Shows shared-IsLawful unmarshal marshal joined.server (0 ∷ [])
run-Given_example =
    run-Given shared-IsLawful unmarshal marshal codec fresh.server nothing_shown joined.server
      (0 ∷ []) (join start joins)

-- Another node, over the server that the first one left.
abbrev second : Process shared
second = record fresh { server = joined.server }

run-serves_example :
    (q : Process shared) × (sync shared unmarshal marshal second ≡ (ok tt, q))
    × ((check_local_subnet_file_settings shared unmarshal q).0 ≡ ok (length {A = ℕ} (0 ∷ [])))
run-serves_example =
    run-serves shared-IsLawful unmarshal marshal codec fresh.server nothing_shown second (0 ∷ [])
      (join start joins) (omega arith) refl
