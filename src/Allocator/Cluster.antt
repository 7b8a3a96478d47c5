-- ===== src/Allocator/Cluster.antt =====
-- What the calls for pods leave alone: the cluster's pool.
use my_cni.Prelude.{◌≡◌, ◌≢◌, refl, ◌∙◌, ap, false, List, [], ◌∷◌, Option, Bool-cases, inl, inr}
use my_cni.Text.{Bytes, split, same}
use my_cni.Text.Equal.{same-eq, same_iff, same_comm}
use my_cni.Text.Split.{split-ne-nil}
use my_cni.Net.{Notation6}
use my_cni.Etcd.{Etcd, IsLawful, WrappedClient, host_pool_path, ip_pool_path, net_device_path}
use my_cni.Etcd.Laws.{stored, stored-got}
use my_cni.Etcd.Paths.{device_id, cluster-device, cluster-pool}
use my_cni.Allocator.{allocate_ip2pod, release_pod_ip}
use my_cni.Allocator.Pods.{
  allocate_new, allocate_held, stored-given, stored-read, release_set, release_unset, stored-freed,
}
use my_cni.Allocator.Runs.{
  Op, allocate, release, after_op, run, IsReady, after_op-IsReady, reserved-state,
}

module _ {E : Etcd} (L : IsLawful E) (hostname : Option Bytes) ⦃n6 : Notation6⦄ where
  module _ (container_id ifname : Bytes) (c : WrappedClient E) (r : IsReady L hostname c) where
    abbrev device : Bytes
    device = net_device_path hostname (device_id container_id ifname)

    device-cluster : same device ip_pool_path ≡ false
    device-cluster =
        same_comm device ip_pool_path ∙ cluster-device hostname (device_id container_id ifname)

    pool-cluster : same (host_pool_path hostname) ip_pool_path ≡ false
    pool-cluster = same_comm (host_pool_path hostname) ip_pool_path ∙ cluster-pool hostname

    new_keeps :
        (ip : Bytes) (ips : List Bytes)
        → split b';' (stored L c (host_pool_path hostname)) ≡ ip ∷ ips
        → stored L c device ≡ []
        → stored L (allocate_ip2pod E hostname container_id ifname c).1 ip_pool_path
          ≡ stored L c ip_pool_path
    new_keeps ip ips q d =
        rw
          (allocate_new L hostname container_id ifname c r.up r.subnet.0 r.subnet.1 ip ips
            r.host_set r.host_parses d q)
          (stored-given L hostname container_id ifname c r.up ip ips ip_pool_path
            ∙ rw (device-cluster, pool-cluster))

    held_keeps :
        stored L c device ≢ []
        → stored L (allocate_ip2pod E hostname container_id ifname c).1 ip_pool_path
          ≡ stored L c ip_pool_path
    held_keeps d =
        ap (λ x. stored L x.1 ip_pool_path)
          (allocate_held L hostname container_id ifname c r.up r.subnet.0 r.subnet.1 r.host_set
            r.host_parses d)
        ∙ ap (λ (w : WrappedClient E). stored L w ip_pool_path)
            (reserved-state L hostname (stored L c device) _ _ refl _ _)
        ∙ stored-read L hostname container_id ifname c r.up ip_pool_path

    allocate_keeps :
        stored L (allocate_ip2pod E hostname container_id ifname c).1 ip_pool_path
        ≡ stored L c ip_pool_path
    allocate_keeps = elim (Bool-cases (same (stored L c device) [])) [
      | inl e ↦ from_pool (split b';' (stored L c (host_pool_path hostname))) refl (same-eq _ _ e)
      | inr e ↦ held_keeps (λ z. cc (e, (same_iff _ _).1 z))
    ]
      where
        from_pool :
            (ps : List Bytes)
            → split b';' (stored L c (host_pool_path hostname)) ≡ ps
            → stored L c device ≡ []
            → stored L (allocate_ip2pod E hostname container_id ifname c).1 ip_pool_path
              ≡ stored L c ip_pool_path
        from_pool [] q d = absurd (split-ne-nil b';' _ q)
        from_pool (ip ∷ ips) q d = new_keeps ip ips q d

    release_keeps :
        stored L (release_pod_ip E hostname container_id ifname c).1 ip_pool_path
        ≡ stored L c ip_pool_path
    release_keeps = elim (Bool-cases (same (stored L c device) [])) [
      | inl e ↦
          rw (release_unset L hostname container_id ifname c r.up (same-eq _ _ e))
            (stored-got L c device ip_pool_path)
      | inr e ↦
          rw (release_set L hostname container_id ifname c r.up (λ z. cc (e, (same_iff _ _).1 z))) (
            stored-freed L hostname container_id ifname c r.up (stored L c device) ip_pool_path
            ∙ rw (device-cluster, pool-cluster))
    ]

  op_keeps :
      (o : Op) (c : WrappedClient E)
      → IsReady L hostname c
      → stored L (after_op E hostname o c) ip_pool_path ≡ stored L c ip_pool_path
  unfolding after_op
  op_keeps (allocate i n) c r = allocate_keeps i n c r
  op_keeps (release i n) c r = release_keeps i n c r

  -- On a node that has a subnet, over a server that answers, allocations and releases in any order
  -- leave the cluster's pool of subnets as it is.
  pub run-keeps_cluster :
      (os : List Op) (c : WrappedClient E)
      → IsReady L hostname c
      → stored L (run E hostname os c) ip_pool_path ≡ stored L c ip_pool_path
  unfolding run
  run-keeps_cluster [] c r = refl
  run-keeps_cluster (o ∷ os) c r =
      run-keeps_cluster os (after_op E hostname o c) (after_op-IsReady L hostname o c r)
      ∙ op_keeps o c r
