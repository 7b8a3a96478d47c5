-- ===== src/Examples/Runs.antt =====
-- An example of a run of allocations and releases.
use my_cni.Prelude.{◌≡◌, [], ◌∷◌, true, false, inl, inr}
use my_cni.Text.{Bytes, codes, same}
use my_cni.Text.Equal.{same_iff}
use my_cni.Etcd.Memory.{memory, memory-IsLawful}
use my_cni.Etcd.Laws.{stored}
use my_cni.Etcd.Paths.{device_id, host-device, gw-device, pool-device}
use my_cni.Allocator.Distinct.{In}
use my_cni.Allocator.Exclusive.{IsExclusive, device_at}
use my_cni.Allocator.Runs.{allocate, release, run, IsReady, run-IsReady}
use my_cni.Etcd.{ip_pool_path}
use my_cni.Allocator.Cluster.{run-keeps_cluster}
use my_cni.Examples.{no_v6, node}
use my_cni.Examples.Etcd.{cid, eth, two, subnet, two-HasSubnet, two-entries}

-- No device of the node has an address.
no_device : (c i : Bytes) → stored memory-IsLawful two (device_at node c i) ≡ []
unfolding memory-IsLawful
no_device c i = rw (host-device node (device_id c i), gw-device node c i, pool-device node c i)

not_true : ¬ (false ≡ true)
not_true e = cc

only_three : ¬ (In (codes "10.1.1.2/29") (codes "10.1.1.3/29" ∷ []))
unfolding same
only_three (inl e) = not_true ((same_iff _ _).1 e)
only_three (inr f) = f

two-IsExclusive : IsExclusive node (stored memory-IsLawful two)
two-IsExclusive = record {
  pool_distinct = rw two-entries ((λ h. only_three), ((λ h i. i), tt));
  apart = λ c i h. absurd (h (no_device c i));
  devices_distinct = λ c i d j h e. absurd (h (no_device c i));
  clean = λ c i. rw (no_device c i) tt;
}

two-IsReady : IsReady memory-IsLawful node two
two-IsReady = record {
  up = two-HasSubnet.up;
  host_set = two-HasSubnet.host_set;
  subnet = subnet;
  host_parses = two-HasSubnet.host_parses;
  exclusive = two-IsExclusive;
}

run-IsReady_example :
    IsReady memory-IsLawful node
      (run memory node (allocate cid eth ∷ allocate (codes "d") eth ∷ release cid eth ∷ []) two)
run-IsReady_example =
    run-IsReady memory-IsLawful node
      (allocate cid eth ∷ allocate (codes "d") eth ∷ release cid eth ∷ []) two two-IsReady

run-keeps_cluster_example :
    stored memory-IsLawful
      (run memory node (allocate cid eth ∷ release cid eth ∷ []) two)
      ip_pool_path
    ≡ stored memory-IsLawful two ip_pool_path
run-keeps_cluster_example =
    run-keeps_cluster memory-IsLawful node (allocate cid eth ∷ release cid eth ∷ []) two two-IsReady
