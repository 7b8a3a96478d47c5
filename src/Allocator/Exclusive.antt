-- ===== src/Allocator/Exclusive.antt =====
-- No address of a node is given to two devices: the invariant of the keys of one node.
use my_cni.Prelude.{
  ◌≡◌, ◌≢◌, refl, sym, ◌∙◌, ◌⊎◌, inl, inr, false, List, [], ◌∷◌, ◌++◌, Option, All, All-append,
  if◌then◌else◌, Bool-cases, subst,
}
use my_cni.Text.{Bytes, split, join, same, Lacks}
use my_cni.Text.Equal.{same_refl, same-eq, same_comm, same_iff}
use my_cni.Text.Split.{split-join, split-Lacks}
use my_cni.Etcd.{host_pool_path, net_device_path}
use my_cni.Etcd.Paths.{device_id, pool-device, device-device}
use my_cni.Allocator.Distinct.{In, Distinct, In-append, Distinct-append, append-ne-nil}

module _ (hostname : Option Bytes) where
  abbrev pub device_at : Bytes → Bytes → Bytes
  device_at c i = net_device_path hostname (device_id c i)

  -- The text of each key: the addresses in the pool and those of the devices are apart, and no two
  -- devices share one. An empty text is no address.
  pub record IsExclusive (v : Bytes → Bytes) : Type 0 where
    pub pool_distinct : Distinct (split b';' (v (host_pool_path hostname)))
    pub apart :
        (c i : Bytes)
        → v (device_at c i) ≢ []
        → ¬ (In (v (device_at c i)) (split b';' (v (host_pool_path hostname))))
    pub devices_distinct :
        (c i d j : Bytes)
        → v (device_at c i) ≢ []
        → v (device_at c i) ≡ v (device_at d j)
        → device_id c i ≡ device_id d j
    pub clean : (c i : Bytes) → Lacks b';' (v (device_at c i))

  module _ (v w : Bytes → Bytes) (c0 i0 : Bytes) (new pool' : Bytes)
      (after : (j : Bytes)
        → w j ≡ (
            if same (device_at c0 i0) j
            then new
            else if same (host_pool_path hostname) j
            then pool'
            else v j)) where
    pool_after : w (host_pool_path hostname) ≡ pool'
    pool_after = rw (
      after (host_pool_path hostname),
      same_comm (device_at c0 i0) (host_pool_path hostname),
      pool-device hostname c0 i0,
      same_refl (host_pool_path hostname),
    )

    device_after :
        (c i : Bytes)
        → w (device_at c i)
          ≡ (if same (device_id c0 i0) (device_id c i) then new else v (device_at c i))
    device_after c i = rw (
      after (device_at c i),
      device-device hostname (device_id c0 i0) (device_id c i),
      pool-device hostname c i,
    )

    -- A device is the one that changed, or keeps its text.
    device_cases :
        (c i : Bytes)
        → ((device_id c0 i0 ≡ device_id c i) × (w (device_at c i) ≡ new))
          ⊎ ((device_id c0 i0 ≢ device_id c i) × (w (device_at c i) ≡ v (device_at c i)))
    device_cases c i = elim (Bool-cases (same (device_id c0 i0) (device_id c i))) [
      | inl e ↦ inl (same-eq _ _ e, device_after c i ∙ (rw e))
      | inr e ↦ inr ((λ p. differ e p), device_after c i ∙ (rw e))
    ]
      where
        differ :
            same (device_id c0 i0) (device_id c i) ≡ false → ¬ (device_id c0 i0 ≡ device_id c i)
        differ e p = cc (e, (same_iff _ _).1 p)

  -- A text that is read back holds what was joined, or one empty entry.
  split-tail :
      (ips : List Bytes)
      → All (Lacks b';') ips
      → Distinct ips
      → Distinct (split b';' (join b';' ips))
  split-tail [] l d = unfold split join in ((λ h. absurd (h refl)), tt)
  split-tail (p ∷ ps) l d = rw (split-join b';' (p ∷ ps) (λ e. cc) l) d

  In-tail :
      (x : Bytes) (ips : List Bytes)
      → All (Lacks b';') ips
      → x ≢ []
      → In x (split b';' (join b';' ips))
      → In x ips
  In-tail x [] l h = unfold split join in λ i. elim i [ inl e ↦ absurd (h e) | inr f ↦ absurd f ]
  In-tail x (p ∷ ps) l h = rw (split-join b';' (p ∷ ps) (λ e. cc) l) (λ i. i)

  module _ (v w : Bytes → Bytes) (c0 i0 ip : Bytes) (ips : List Bytes) (x : IsExclusive v)
      (taken : split b';' (v (host_pool_path hostname)) ≡ ip ∷ ips)
      (free : v (device_at c0 i0) ≡ [])
      (after : (j : Bytes)
        → w j ≡ (
            if same (device_at c0 i0) j
            then ip
            else if same (host_pool_path hostname) j
            then join b';' ips
            else v j)) where
    parts_clean : All (Lacks b';') (ip ∷ ips)
    parts_clean = subst (All (Lacks b';')) taken (split-Lacks b';' (v (host_pool_path hostname)))

    parts-Distinct : Distinct (ip ∷ ips)
    parts-Distinct = subst Distinct taken x.pool_distinct

    cases :
        (c i : Bytes)
        → ((device_id c0 i0 ≡ device_id c i) × (w (device_at c i) ≡ ip))
          ⊎ ((device_id c0 i0 ≢ device_id c i) × (w (device_at c i) ≡ v (device_at c i)))
    cases = device_cases v w c0 i0 ip (join b';' ips) after

    other_apart : (c i : Bytes) → v (device_at c i) ≢ [] → ¬ (In (v (device_at c i)) (ip ∷ ips))
    other_apart c i h = subst (λ ps. ¬ (In (v (device_at c i)) ps)) taken (x.apart c i h)

    take_apart :
        (t : Bytes)
        → t ≢ []
        → (t ≡ ip) ⊎ (¬ (In t (ip ∷ ips)))
        → ¬ (In t (split b';' (w (host_pool_path hostname))))
    take_apart t h o m = elim o [
      | inl e ↦ parts-Distinct.0 (λ z. h (e ∙ z)) (subst (λ y. In y ips) e left)
      | inr n ↦ n (inr left)
    ]
      where
        left : In t ips
        left =
            In-tail t ips parts_clean.1 h
              (subst (λ y. In t (split b';' y)) (pool_after v w c0 i0 ip (join b';' ips) after) m)

    take_distinct :
        (c i d j : Bytes)
        → w (device_at c i) ≢ []
        → w (device_at c i) ≡ w (device_at d j)
        → device_id c i ≡ device_id d j
    take_distinct c i d j h q = elim (cases c i) [
      | inl (p, e) ↦ elim (cases d j) [
        | inl (p', e') ↦ sym p ∙ p'
        | inr (n', e') ↦
            absurd (other_apart d j (λ z. h (q ∙ (e' ∙ z))) (inl (sym e' ∙ (sym q ∙ e))))
      ]
      | inr (n, e) ↦ elim (cases d j) [
        | inl (p', e') ↦ absurd (other_apart c i (λ z. h (e ∙ z)) (inl (sym e ∙ (q ∙ e'))))
        | inr (n', e') ↦ x.devices_distinct c i d j (λ z. h (e ∙ z)) (sym e ∙ (q ∙ e'))
      ]
    ]

    -- Giving the first entry of the pool to a free device keeps the addresses apart.
    pub take-IsExclusive : IsExclusive w
    take-IsExclusive = record {
      pool_distinct =
          rw (pool_after v w c0 i0 ip (join b';' ips) after)
            (split-tail ips parts_clean.1 parts-Distinct.1);
      apart = λ c i h. elim (cases c i) [
        | inl (_, e) ↦ take_apart (w (device_at c i)) h (inl e)
        | inr (_, e) ↦
            take_apart (w (device_at c i)) h
              (inr (subst (λ y. ¬ (In y (ip ∷ ips))) (sym e) (other_apart c i (λ z. h (e ∙ z)))))
      ];
      devices_distinct = take_distinct;
      clean = λ c i. elim (cases c i) [
        | inl (_, e) ↦ rw e parts_clean.0
        | inr (_, e) ↦ rw e (x.clean c i)
      ];
    }

  module _ (v w : Bytes → Bytes) (c0 i0 : Bytes) (x : IsExclusive v)
      (held : v (device_at c0 i0) ≢ [])
      (after : (j : Bytes)
        → w j ≡ (
            if same (device_at c0 i0) j
            then []
            else if same (host_pool_path hostname) j
            then join b';' (split b';' (v (host_pool_path hostname)) ++ v (device_at c0 i0) ∷ [])
            else v j)) where
    returned : List Bytes
    returned = split b';' (v (host_pool_path hostname)) ++ v (device_at c0 i0) ∷ []

    pool_returned : split b';' (w (host_pool_path hostname)) ≡ returned
    unfolding returned
    pool_returned = rw (pool_after v w c0 i0 [] (join b';' returned) after) (
        split-join b';' returned (λ e. append-ne-nil (split b';' (v (host_pool_path hostname))) _ e)
          (All-append (Lacks b';') (split b';' (v (host_pool_path hostname)))
            (v (device_at c0 i0) ∷ []) (split-Lacks b';' (v (host_pool_path hostname)))
            (x.clean c0 i0, tt)))

    gone :
        (c i : Bytes)
        → ((device_id c0 i0 ≡ device_id c i) × (w (device_at c i) ≡ []))
          ⊎ ((device_id c0 i0 ≢ device_id c i) × (w (device_at c i) ≡ v (device_at c i)))
    unfolding returned
    gone = device_cases v w c0 i0 [] (join b';' returned) after

    give_apart : (c i : Bytes) → w (device_at c i) ≢ [] → ¬ (In (w (device_at c i)) returned)
    unfolding returned
    give_apart c i h m = elim (gone c i) [
      | inl (_, e) ↦ h e
      | inr (n, e) ↦
          elim (In-append (w (device_at c i)) (split b';' (v (host_pool_path hostname)))
            (v (device_at c0 i0)) m) [
              | inl k ↦
                  x.apart c i (λ z. h (e ∙ z))
                    (subst (λ y. In y (split b';' (v (host_pool_path hostname)))) e k)
              | inr k ↦ n (sym (x.devices_distinct c i c0 i0 (λ z. h (e ∙ z)) (sym e ∙ k)))
            ]
    ]

    give_distinct :
        (c i d j : Bytes)
        → w (device_at c i) ≢ []
        → w (device_at c i) ≡ w (device_at d j)
        → device_id c i ≡ device_id d j
    give_distinct c i d j h q = elim (gone c i) [
      | inl (p, e) ↦ absurd (h e)
      | inr (n, e) ↦ elim (gone d j) [
        | inl (p', e') ↦ absurd (h (q ∙ e'))
        | inr (n', e') ↦ x.devices_distinct c i d j (λ z. h (e ∙ z)) (sym e ∙ (q ∙ e'))
      ]
    ]

    -- Putting the address of a device back into the pool keeps the addresses apart.
    pub give-IsExclusive : IsExclusive w
    unfolding returned
    give-IsExclusive = record {
      pool_distinct = rw pool_returned (
          Distinct-append (split b';' (v (host_pool_path hostname))) (v (device_at c0 i0))
            x.pool_distinct (x.apart c0 i0 held));
      apart = λ c i h. rw pool_returned (give_apart c i h);
      devices_distinct = give_distinct;
      clean = λ c i. elim (gone c i) [ inl (_, e) ↦ rw e tt | inr (_, e) ↦ rw e (x.clean c i) ];
    }
