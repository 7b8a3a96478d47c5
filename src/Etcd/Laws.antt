-- ===== src/Etcd/Laws.antt =====
-- The wrapped client over a server that answers, one equation for each call.
use my_cni.Prelude.{◌≡◌, refl, ap, Bool, true, false, List, [], Option, none, some, if◌then◌else◌}
use my_cni.Text.{Bytes, same}
use my_cni.Exec.{Result, ok, pure, continue}
use my_cni.Etcd.{
  Etcd, IsLawful, WrappedClient, found, last_value, get_kv, put_kv, del_kv, relay,
  set_init_pool_status,
}

-- A missing key reads as the empty text.
abbrev pub text : Option Bytes → Bytes
text none = []
text (some v) = v

module _ {E : Etcd} where
  -- The clients behind a call.
  pub got : Bytes → WrappedClient E → WrappedClient E
  got k c = record c { client = (E.get k c.client).1 }

  pub wrote : Bytes → Bytes → WrappedClient E → WrappedClient E
  wrote k v c = record c { client = (E.put k v c.client).1 }

  pub erased : Bytes → WrappedClient E → WrappedClient E
  erased k c = record c { client = (E.delete k c.client).1 }

  pub flagged : Bool → WrappedClient E → WrappedClient E
  flagged b c = record c { pool_init_status = b }

  -- A read is the last of the values that the server returned.
  read_result :
      (r : Result (List Bytes)) (vs : List Bytes) (c : WrappedClient E)
      → r ≡ ok vs
      → continue (λ kvs. pure (last_value kvs)) (r, c) ≡ (ok (last_value vs), c)
  read_result r vs c e = ap (λ x. continue (λ kvs. pure (last_value kvs)) (x, c)) e

module _ {E : Etcd} (L : IsLawful E) where
  -- What the client reads at a key.
  abbrev pub stored : WrappedClient E → Bytes → Bytes
  stored c k = text (L.contents c.client k)

  abbrev pub Up : WrappedClient E → Type 0
  Up c = L.IsUp c.client

  last_found : (o : Option Bytes) → last_value (found o) ≡ text o
  last_found none = refl
  last_found (some v) = refl

  module _ (c : WrappedClient E) (k : Bytes) (up : Up c) where
    pub get_kv_up : get_kv E k c ≡ (ok (stored c k), got k c)
    unfolding got get_kv
    get_kv_up =
        rw (← last_found (L.contents c.client k)) (read_result _ _ _ (L.get_up c.client k up))

    pub put_kv_up : (v : Bytes) → put_kv E k v c ≡ (ok tt, wrote k v c)
    unfolding wrote put_kv
    put_kv_up v = ap (λ r. relay c (r, (E.put k v c.client).1)) (L.put_up c.client k v up)

    pub del_kv_up : del_kv E k c ≡ (ok tt, erased k c)
    unfolding erased del_kv
    del_kv_up = ap (λ r. relay c (r, (E.delete k c.client).1)) (L.delete_up c.client k up)

    pub got-Up : Up (got k c)
    unfolding got
    got-Up = L.get_stays c.client k up

    pub wrote-Up : (v : Bytes) → Up (wrote k v c)
    unfolding wrote
    wrote-Up v = L.put_stays c.client k v up

    pub erased-Up : Up (erased k c)
    unfolding erased
    erased-Up = L.delete_stays c.client k up

    pub stored-wrote : (v j : Bytes) → stored (wrote k v c) j ≡ (if same k j then v else stored c j)
    unfolding wrote
    stored-wrote v j = rw (L.put_sets c.client k v j up) (text-if (same k j))
      where
        text-if :
            (b : Bool)
            → text (if b then some v else L.contents c.client j) ≡ (if b then v else stored c j)
        text-if true = refl
        text-if false = refl

    pub stored-erased : (j : Bytes) → stored (erased k c) j ≡ (if same k j then [] else stored c j)
    unfolding erased
    stored-erased j = rw (L.delete_clears c.client k j up) (text-if (same k j))
      where
        text-if :
            (b : Bool)
            → text (if b then none else L.contents c.client j) ≡ (if b then [] else stored c j)
        text-if true = refl
        text-if false = refl

  pub stored-got : (c : WrappedClient E) (k j : Bytes) → stored (got k c) j ≡ stored c j
  unfolding got
  stored-got c k j = ap text (L.get_same c.client k j)

  pub stored-flagged :
      (c : WrappedClient E) (b : Bool) (j : Bytes) → stored (flagged b c) j ≡ stored c j
  unfolding flagged
  stored-flagged c b j = refl

  pub flag_up : (b : Bool) (c : WrappedClient E) → set_init_pool_status E b c ≡ (ok tt, flagged b c)
  unfolding flagged set_init_pool_status
  flag_up b c = refl
