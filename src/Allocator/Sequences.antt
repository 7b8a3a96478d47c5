-- ===== src/Allocator/Sequences.antt =====
-- Two calls of the allocator after each other.
use my_cni.Prelude.{
  ◌≡◌, ◌≢◌, refl, sym, ◌∙◌, ap, true, false, List, [], ◌∷◌, ◌++◌, Option, some, All-append,
}
use my_cni.Text.{Bytes, split, same, Lacks}
use my_cni.Text.Equal.{same_refl, same_comm}
use my_cni.Text.Split.{split-join, split-Lacks}
use my_cni.Net.{Ip, IpNet, Notation6, parse_cidr}
use my_cni.Exec.{ok}
use my_cni.Etcd.{Etcd, IsLawful, WrappedClient, host_pool_path, host_gw_path, net_device_path}
use my_cni.Etcd.Laws.{stored, Up}
use my_cni.Etcd.Paths.{device_id, pool-device, gw-device, gw-pool}
use my_cni.Allocator.{allocate_ip2pod, release_pod_ip}
use my_cni.Allocator.Pods.{
  allocate_held, stored-given, stored-read, release_set, stored-freed, given, given-Up, host-given,
  freed, read,
}
use my_cni.Allocator.Distinct.{append-ne-nil}
use my_cni.Allocator.Answers.{HasSubnet, answer, new}

module _ {E : Etcd} (L : IsLawful E) (hostname : Option Bytes) ⦃n6 : Notation6⦄
    (container_id ifname : Bytes) (c : WrappedClient E) (subnet : Ip × IpNet)
    (h : HasSubnet L hostname container_id ifname c subnet) where
  abbrev dev : Bytes
  dev = net_device_path hostname (device_id container_id ifname)

  module _ (ip : Bytes) (ips : List Bytes)
      (free : stored L c (net_device_path hostname (device_id container_id ifname)) ≡ [])
      (entries : split b';' (stored L c (host_pool_path hostname)) ≡ ip ∷ ips) where
    abbrev next : WrappedClient E
    next = given L hostname container_id ifname c h.up ip ips

    first_call :
        allocate_ip2pod E hostname container_id ifname c
        ≡ (ok (answer L hostname container_id ifname c subnet ip), next)
    first_call = new L hostname container_id ifname c subnet h ip ips free entries

    dev-next : stored L next dev ≡ ip
    dev-next = rw (stored-given L hostname container_id ifname c h.up ip ips dev, same_refl dev)

    gateway-next : stored L next (host_gw_path hostname) ≡ stored L c (host_gw_path hostname)
    gateway-next = rw (
      stored-given L hostname container_id ifname c h.up ip ips (host_gw_path hostname),
      same_comm dev (host_gw_path hostname),
      gw-device hostname container_id ifname,
      same_comm (host_pool_path hostname) (host_gw_path hostname),
      gw-pool hostname,
    )

    second_call :
        (addr : Ip × IpNet)
        → ip ≢ []
        → parse_cidr ip ≡ some addr
        → allocate_ip2pod E hostname container_id ifname next ≡ (
          ok (answer L hostname container_id ifname c subnet ip),
          read L hostname container_id ifname next
              (given-Up L hostname container_id ifname c h.up ip ips),
        )
    second_call addr filled parses = rw (
      allocate_held L hostname container_id ifname next
          (given-Up L hostname container_id ifname c h.up ip ips) subnet.0 subnet.1
          (λ z. h.host_set (sym (host-given L hostname container_id ifname c h.up ip ips) ∙ z))
          (ap (λ t. parse_cidr t) (host-given L hostname container_id ifname c h.up ip ips)
            ∙ h.host_parses)
          (λ z. filled (sym dev-next ∙ z)),
      dev-next,
      parses,
      gateway-next,
    )

    -- A second call for a device that got an address returns that address again, and no key gets a
    -- new text.
    pub allocate_twice :
        (addr : Ip × IpNet)
        → ip ≢ []
        → parse_cidr ip ≡ some addr
        → ((allocate_ip2pod E hostname container_id ifname
              (allocate_ip2pod E hostname container_id ifname c).1).0
            ≡ (allocate_ip2pod E hostname container_id ifname c).0)
          × ((j : Bytes)
              → stored L
                  (allocate_ip2pod E hostname container_id ifname
                    (allocate_ip2pod E hostname container_id ifname c).1).1
                  j
                ≡ stored L (allocate_ip2pod E hostname container_id ifname c).1 j)
    allocate_twice addr filled parses =
        rw (first_call, second_call addr filled parses)
          (
            refl,
            λ j.
                stored-read L hostname container_id ifname next
                  (given-Up L hostname container_id ifname c h.up ip ips) j,
          )

module _ {E : Etcd} (L : IsLawful E) (hostname : Option Bytes) ⦃n6 : Notation6⦄
    (container_id ifname : Bytes) (c : WrappedClient E) (up : Up L c) where
  abbrev held_at : Bytes
  held_at = net_device_path hostname (device_id container_id ifname)

  -- Releasing a device that has an address makes it free, puts the address at the end of the node's
  -- pool and changes no other key. (An address from a pool holds no semicolon.)
  pub release-returns :
      stored L c (net_device_path hostname (device_id container_id ifname)) ≢ []
      → Lacks b';' (stored L c (net_device_path hostname (device_id container_id ifname)))
      → ((release_pod_ip E hostname container_id ifname c).0 ≡ ok true)
        × (stored L
              (release_pod_ip E hostname container_id ifname c).1
              (net_device_path hostname (device_id container_id ifname))
            ≡ [])
        × (split b';' (
              stored L
                (release_pod_ip E hostname container_id ifname c).1
                (host_pool_path hostname))
            ≡ split b';' (stored L c (host_pool_path hostname))
              ++ stored L c (net_device_path hostname (device_id container_id ifname)) ∷ [])
        × ((j : Bytes)
            → same (net_device_path hostname (device_id container_id ifname)) j ≡ false
            → same (host_pool_path hostname) j ≡ false
            → stored L (release_pod_ip E hostname container_id ifname c).1 j ≡ stored L c j)
  release-returns held clean = rw (release_set L hostname container_id ifname c up held) (
    refl,
    freed_device,
    freed_pool,
    λ j d p. rw (stored-freed L hostname container_id ifname c up (stored L c held_at) j, d, p),
  )
    where
      freed_client : WrappedClient E
      freed_client = freed L hostname container_id ifname c up (stored L c held_at)

      freed_device : stored L freed_client held_at ≡ []
      freed_device = rw (
        stored-freed L hostname container_id ifname c up (stored L c held_at) held_at,
        same_refl held_at,
      )

      freed_pool :
          split b';' (stored L freed_client (host_pool_path hostname))
          ≡ split b';' (stored L c (host_pool_path hostname)) ++ stored L c held_at ∷ []
      freed_pool =
          rw
            (
              stored-freed L hostname container_id ifname c up (stored L c held_at)
                  (host_pool_path hostname),
              same_comm held_at (host_pool_path hostname),
              pool-device hostname container_id ifname,
              same_refl (host_pool_path hostname),
            )
            (split-join b';' _ (append-ne-nil (split b';' (stored L c (host_pool_path hostname))) _)
              (All-append (Lacks b';') (split b';' (stored L c (host_pool_path hostname))) _
                (split-Lacks b';' _) (clean, tt)))
