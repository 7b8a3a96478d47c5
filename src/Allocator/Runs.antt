-- ===== src/Allocator/Runs.antt =====
-- Sequences of allocations and releases on one node, over a server that answers.
use my_cni.Prelude.{
  ◌≡◌, ◌≢◌, refl, sym, ◌∙◌, ap, inl, inr, List, [], ◌∷◌, Option, none, some, Bool-cases, subst,
  fun_ext,
}
use my_cni.Text.{Bytes, split, same}
use my_cni.Text.Equal.{same-eq, same_iff}
use my_cni.Text.Split.{split-ne-nil}
use my_cni.Net.{Ip, IpNet, Mask, Notation6, parse_cidr}
use my_cni.Etcd.{Etcd, IsLawful, WrappedClient, host_path, host_pool_path}
use my_cni.Etcd.Laws.{got, stored, Up, got-Up, stored-got}
use my_cni.Allocator.{allocate_ip2pod, release_pod_ip, reserved_conf}
use my_cni.Allocator.Pods.{
  allocate_new, allocate_held, stored-given, stored-read, read-Up, release_set, release_unset,
  stored-freed, given-Up, freed-Up, host-given, host-freed, given, freed, read,
}
use my_cni.Allocator.Exclusive.{IsExclusive, take-IsExclusive, give-IsExclusive, device_at}

-- A call of the plugin for a container and an interface.
pub data Op : Type 0 where
  allocate release : Bytes → Bytes → Op

module _ (E : Etcd) (hostname : Option Bytes) ⦃n6 : Notation6⦄ where
  unfoldable pub after_op : Op → WrappedClient E → WrappedClient E
  after_op (allocate container_id ifname) c = (allocate_ip2pod E hostname container_id ifname c).1
  after_op (release container_id ifname) c = (release_pod_ip E hostname container_id ifname c).1

  -- The calls one after the other.
  unfoldable pub run : List Op → WrappedClient E → WrappedClient E
  run [] c = c
  run (o ∷ os) c = run os (after_op o c)

module _ {E : Etcd} (L : IsLawful E) (hostname : Option Bytes) ⦃n6 : Notation6⦄ where
  -- A node with a subnet, whose addresses are apart.
  pub record IsReady (c : WrappedClient E) : Type 0 where
    pub up : Up L c
    pub host_set : stored L c (host_path hostname) ≢ []
    pub subnet : Ip × IpNet
    pub host_parses : parse_cidr (stored L c (host_path hostname)) ≡ some subnet
    pub exclusive : IsExclusive hostname (stored L c)

  -- What keeps the subnet and the keys apart keeps a node ready.
  ready :
      (c d : WrappedClient E)
      → IsReady c
      → Up L d
      → stored L d (host_path hostname) ≡ stored L c (host_path hostname)
      → IsExclusive hostname (stored L d)
      → IsReady d
  ready c d r up e x = record {
    up = up;
    host_set = rw e r.host_set;
    subnet = r.subnet;
    host_parses = rw e r.host_parses;
    exclusive = x;
  }

  same_keys :
      (v w : Bytes → Bytes)
      → ((j : Bytes) → w j ≡ v j)
      → IsExclusive hostname v
      → IsExclusive hostname w
  same_keys v w e x = subst (IsExclusive hostname) (sym (fun_ext e)) x

  pub reserved-state :
      (t : Bytes) (o : Option (Ip × IpNet)) (d : WrappedClient E)
      → parse_cidr t ≡ o
      → (m : Mask) (gw : Option Ip) → (reserved_conf E hostname t m gw d).1 ≡ d
  reserved-state t none d e m gw = rw e
  reserved-state t (some (ip, n)) d e m gw = rw e

  module _ (container_id ifname : Bytes) (c : WrappedClient E) (r : IsReady c) where
    abbrev device : Bytes
    device = device_at hostname container_id ifname

    pool : Bytes
    pool = host_pool_path hostname

    allocate-IsReady_held :
        stored L c device ≢ [] → IsReady (allocate_ip2pod E hostname container_id ifname c).1
    allocate-IsReady_held d = subst IsReady (sym state) (
        ready c (read L hostname container_id ifname c r.up) r
          (read-Up L hostname container_id ifname c r.up)
          (stored-read L hostname container_id ifname c r.up (host_path hostname))
          (same_keys _ _ (stored-read L hostname container_id ifname c r.up) r.exclusive))
      where
        state :
            (allocate_ip2pod E hostname container_id ifname c).1
            ≡ read L hostname container_id ifname c r.up
        state =
            ap (λ x. x.1)
              (allocate_held L hostname container_id ifname c r.up r.subnet.0 r.subnet.1 r.host_set
                r.host_parses d)
            ∙ reserved-state (stored L c device) _ _ refl _ _

    allocate-IsReady_new :
        (ip : Bytes) (ips : List Bytes)
        → split b';' (stored L c (host_pool_path hostname)) ≡ ip ∷ ips
        → stored L c device ≡ []
        → IsReady (allocate_ip2pod E hostname container_id ifname c).1
    allocate-IsReady_new ip ips q d = subst IsReady (sym state) (
        ready c (given L hostname container_id ifname c r.up ip ips) r
          (given-Up L hostname container_id ifname c r.up ip ips)
          (host-given L hostname container_id ifname c r.up ip ips)
          (take-IsExclusive hostname (stored L c) _ container_id ifname ip ips r.exclusive q d
            (stored-given L hostname container_id ifname c r.up ip ips)))
      where
        state :
            (allocate_ip2pod E hostname container_id ifname c).1
            ≡ given L hostname container_id ifname c r.up ip ips
        state =
            ap (λ x. x.1)
              (allocate_new L hostname container_id ifname c r.up r.subnet.0 r.subnet.1 ip ips
                r.host_set r.host_parses d q)

    allocate-IsReady : IsReady (allocate_ip2pod E hostname container_id ifname c).1
    allocate-IsReady = elim (Bool-cases (same (stored L c device) [])) [
      | inl e ↦ from_pool _ refl (same-eq _ _ e)
      | inr e ↦ allocate-IsReady_held (λ z. cc (e, (same_iff _ _).1 z))
    ]
      where
        from_pool :
            (ps : List Bytes)
            → split b';' (stored L c (host_pool_path hostname)) ≡ ps
            → stored L c device ≡ []
            → IsReady (allocate_ip2pod E hostname container_id ifname c).1
        from_pool [] q d = absurd (split-ne-nil b';' _ q)
        from_pool (ip ∷ ips) q d = allocate-IsReady_new ip ips q d

    release-IsReady_held :
        stored L c device ≢ [] → IsReady (release_pod_ip E hostname container_id ifname c).1
    release-IsReady_held d =
        subst IsReady (sym (ap (λ x. x.1) (release_set L hostname container_id ifname c r.up d))) (
          ready c (freed L hostname container_id ifname c r.up (stored L c device)) r
            (freed-Up L hostname container_id ifname c r.up _)
            (host-freed L hostname container_id ifname c r.up _)
            (give-IsExclusive hostname (stored L c) _ container_id ifname r.exclusive d
              (stored-freed L hostname container_id ifname c r.up (stored L c device))))

    release-IsReady_free :
        stored L c device ≡ [] → IsReady (release_pod_ip E hostname container_id ifname c).1
    release-IsReady_free d =
        subst IsReady (sym (ap (λ x. x.1) (release_unset L hostname container_id ifname c r.up d)))
          (ready c (got device c) r (got-Up L c device r.up) (stored-got L c device _)
            (same_keys _ _ (stored-got L c device) r.exclusive))

    release-IsReady : IsReady (release_pod_ip E hostname container_id ifname c).1
    release-IsReady = elim (Bool-cases (same (stored L c device) [])) [
      | inl e ↦ release-IsReady_free (same-eq _ _ e)
      | inr e ↦ release-IsReady_held (λ z. cc (e, (same_iff _ _).1 z))
    ]

  pub after_op-IsReady :
      (o : Op) (c : WrappedClient E) → IsReady c → IsReady (after_op E hostname o c)
  unfolding after_op
  after_op-IsReady (allocate i n) c r = allocate-IsReady i n c r
  after_op-IsReady (release i n) c r = release-IsReady i n c r

  -- On a node that has a subnet, over a server that answers, allocations and releases in any order
  -- keep the addresses apart: none is in the pool and at a device, or at two devices.
  pub run-IsReady : (os : List Op) (c : WrappedClient E) → IsReady c → IsReady (run E hostname os c)
  unfolding run
  run-IsReady [] c r = r
  run-IsReady (o ∷ os) c r = run-IsReady os (after_op E hostname o c) (after_op-IsReady o c r)
