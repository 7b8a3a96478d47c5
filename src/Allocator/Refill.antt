-- ===== src/Allocator/Refill.antt =====
-- An address that comes back to a pool that was used up.
use my_cni.Prelude.{◌≡◌, ◌≢◌, sym, ◌∙◌, ap, subst, false, [], ◌∷◌, Option, none}
use my_cni.Text.{Bytes, split, same, Lacks}
use my_cni.Text.Equal.{same_ne, same_comm}
use my_cni.Net.{Ip, IpNet, Notation6, parse_cidr}
use my_cni.Exec.{ok}
use my_cni.Etcd.{
  Etcd, IsLawful, WrappedClient, host_path, host_pool_path, host_gw_path, net_device_path,
}
use my_cni.Etcd.Laws.{stored, Up}
use my_cni.Etcd.Paths.{device_id, pool-device, gw-device, gw-pool}
use my_cni.Allocator.{allocate_ip2pod, release_pod_ip, first}
use my_cni.Allocator.Pods.{release_set, freed, freed-Up, host-freed}
use my_cni.Allocator.Answers.{HasSubnet, allocate-takes_first, parse_cidr-nil, split-nil}
use my_cni.Allocator.Sequences.{release-returns}

module _ {E : Etcd} (L : IsLawful E) (hostname : Option Bytes) ⦃n6 : Notation6⦄
    (old_id old_if new_id new_if : Bytes) (c : WrappedClient E) (subnet : Ip × IpNet)
    (h : HasSubnet L hostname new_id new_if c subnet)
    (held : stored L c (net_device_path hostname (device_id old_id old_if)) ≢ [])
    (clean : Lacks b';' (stored L c (net_device_path hostname (device_id old_id old_if))))
    (free : stored L c (net_device_path hostname (device_id new_id new_if)) ≡ [])
    (used_up : stored L c (host_pool_path hostname) ≡ []) where
  abbrev old : Bytes
  old = net_device_path hostname (device_id old_id old_if)

  abbrev fresh : Bytes
  fresh = net_device_path hostname (device_id new_id new_if)

  abbrev returned : WrappedClient E
  returned = (release_pod_ip E hostname old_id old_if c).1

  old-fresh : same old fresh ≡ false
  old-fresh = same_ne old fresh (λ e. held (ap (stored L c) e ∙ free))

  released : returned ≡ freed L hostname old_id old_if c h.up (stored L c old)
  released = ap (λ x. x.1) (release_set L hostname old_id old_if c h.up held)

  host-returned : stored L returned (host_path hostname) ≡ stored L c (host_path hostname)
  host-returned =
      ap (λ (d : WrappedClient E). stored L d (host_path hostname)) released
      ∙ host-freed L hostname old_id old_if c h.up _

  releases :
      (j : Bytes)
      → same old j ≡ false
      → same (host_pool_path hostname) j ≡ false
      → stored L returned j ≡ stored L c j
  releases = (release-returns L hostname old_id old_if c h.up held clean).3

  free-returned : stored L returned fresh ≡ []
  free-returned = releases fresh old-fresh (pool-device hostname new_id new_if) ∙ free

  gateway-returned : stored L returned (host_gw_path hostname) ≡ stored L c (host_gw_path hostname)
  gateway-returned =
      releases (host_gw_path hostname)
        (same_comm old (host_gw_path hostname) ∙ gw-device hostname old_id old_if)
        (same_comm (host_pool_path hostname) (host_gw_path hostname) ∙ gw-pool hostname)

  returned-HasSubnet : HasSubnet L hostname new_id new_if returned subnet
  returned-HasSubnet = record {
    up = subst (Up L) (sym released) (freed-Up L hostname old_id old_if c h.up _);
    host_set = λ z. h.host_set (sym host-returned ∙ z);
    host_parses = rw host-returned h.host_parses;
  }

  pool-returned :
      split b';' (stored L returned (host_pool_path hostname)) ≡ [] ∷ stored L c old ∷ []
  pool-returned =
      (release-returns L hostname old_id old_if c h.up held clean).2 ∙ rw (used_up, split-nil)

  -- The address that a release puts back behind the empty entry of a used-up pool is not given to
  -- the next device: the allocation takes the empty entry, and answers with a nil address.
  pub allocate-after_release :
      (allocate_ip2pod E hostname new_id new_if (release_pod_ip E hostname old_id old_if c).1).0
      ≡ ok (record {
        address = none;
        mask = subnet.1.mask;
        gateway = first (parse_cidr (stored L c (host_gw_path hostname)));
        interface = none;
      })
  allocate-after_release =
      rw (← parse_cidr-nil, ← gateway-returned)
        (allocate-takes_first L hostname new_id new_if returned subnet returned-HasSubnet []
          (stored L c old ∷ []) free-returned pool-returned).0
