-- ===== src/InitPool/Fill.antt =====
-- The cluster's pool is filled once.
use my_cni.Prelude.{
  ◌≡◌, refl, sym, ◌∙◌, ap, Bool, true, false, not, ◌&&◌, [], if◌then◌else◌, Bool-cases, inl, inr,
}
use my_cni.Text.{Bytes, join, same}
use my_cni.Exec.{ok}
use my_cni.Etcd.{Etcd, IsLawful, WrappedClient, ip_pool_path, get_init_pool_status}
use my_cni.Etcd.Laws.{
  stored, Up, got, wrote, flagged, got-Up, get_kv_up, put_kv_up, flag_up, stored-got, stored-wrote,
  stored-flagged,
}
use my_cni.InitPool.{random_generate_ip_cidrs, init_pool}

and_true : (b : Bool) → (b && true) ≡ b
and_true true = refl
and_true false = refl

and_false : (b : Bool) → (b && false) ≡ false
and_false true = refl
and_false false = refl

module _ {E : Etcd} (L : IsLawful E) (c : WrappedClient E) (up : Up L c) where
  status :
      get_init_pool_status E c ≡ (ok (not (same (stored L c ip_pool_path) [])), got ip_pool_path c)
  unfolding get_init_pool_status
  status = rw (get_kv_up L c ip_pool_path up)

  abbrev full_text : Bytes
  full_text = join b';' random_generate_ip_cidrs

  fills :
      same (stored L c ip_pool_path) [] ≡ true
      → init_pool E c ≡ (ok true, flagged true (wrote ip_pool_path full_text (got ip_pool_path c)))
  unfolding init_pool
  fills e = rw (
    status,
    e,
    put_kv_up L (got ip_pool_path c) ip_pool_path (got-Up L c ip_pool_path up) full_text,
    flag_up L true (wrote ip_pool_path full_text (got ip_pool_path c)),
  )

  leaves : same (stored L c ip_pool_path) [] ≡ false → init_pool E c ≡ (ok true, got ip_pool_path c)
  unfolding init_pool
  leaves e = rw (status, e)

  stored-filled :
      (j : Bytes)
      → stored L (flagged true (wrote ip_pool_path full_text (got ip_pool_path c))) j
        ≡ (if same ip_pool_path j then full_text else stored L c j)
  stored-filled j =
      stored-flagged L (wrote ip_pool_path full_text (got ip_pool_path c)) true j
      ∙ stored-wrote L (got ip_pool_path c) ip_pool_path (got-Up L c ip_pool_path up) full_text j
      ∙ rw (stored-got L c ip_pool_path j)

  -- On a server that answers, the call succeeds; the sixteen subnets are written where the pool is
  -- empty, a pool that has a text keeps it, and no other key changes.
  pub init_pool-fills :
      ((init_pool E c).0 ≡ ok true)
      × ((j : Bytes)
          → stored L (init_pool E c).1 j ≡ (
              if same ip_pool_path j && same (stored L c ip_pool_path) []
              then full_text
              else stored L c j))
  init_pool-fills = elim (Bool-cases (same (stored L c ip_pool_path) [])) [
    | inl e ↦
        rw (fills e, e)
          (
            refl,
            λ j.
                stored-filled j
                ∙ ap (λ (b : Bool). if b then full_text else stored L c j)
                    (sym (and_true (same ip_pool_path j))),
          )
    | inr e ↦
        rw (leaves e, e)
          (
            refl,
            λ j.
                stored-got L c ip_pool_path j
                ∙ ap (λ (b : Bool). if b then full_text else stored L c j)
                    (sym (and_false (same ip_pool_path j))),
          )
  ]
