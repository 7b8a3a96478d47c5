-- ===== src/Allocator/Answers.antt =====
-- What the callers of the allocator see: new addresses, repeated calls, releases, an empty pool.
use my_cni.Prelude.{
  ◌≡◌, ◌≢◌, refl, sym, ◌∙◌, ap, List, [], ◌∷◌, Option, none, some, if◌then◌else◌, Bool-cases, inl,
  inr,
}
use my_cni.Text.{Bytes, split, join, same}
use my_cni.Text.Equal.{same-eq}
use my_cni.Net.{Ip, IpNet, Notation6, parse_cidr, cut_slash}
use my_cni.Exec.{ok}
use my_cni.Etcd.{
  Etcd, IsLawful, WrappedClient, host_path, host_pool_path, host_gw_path, net_device_path,
}
use my_cni.Etcd.Laws.{stored, Up}
use my_cni.Etcd.Paths.{device_id}
use my_cni.Allocator.{IpConfig, allocate_ip2pod, first}
use my_cni.Allocator.Pods.{allocate_new, stored-given, given}

pub parse_cidr-nil : ⦃n6 : Notation6⦄ → first (parse_cidr []) ≡ none
unfolding parse_cidr cut_slash
parse_cidr-nil = refl

join-nil : join b';' [] ≡ []
unfolding join
join-nil = refl

pub split-nil : split b';' [] ≡ [] ∷ []
unfolding split
split-nil = refl

-- Writing the text that a key has already.
write_same : (v : Bytes → Bytes) (k j t : Bytes) → v k ≡ t → (if same k j then t else v j) ≡ v j
write_same v k j t e = elim (Bool-cases (same k j)) [
  | inl s ↦ rw s (sym e ∙ ap v (same-eq k j s))
  | inr s ↦ rw s
]

module _ {E : Etcd} (L : IsLawful E) (hostname : Option Bytes) ⦃n6 : Notation6⦄
    (container_id ifname : Bytes) (c : WrappedClient E) where
  abbrev pub device : Bytes
  device = net_device_path hostname (device_id container_id ifname)

  abbrev pub pool : Bytes
  pool = host_pool_path hostname

  -- A server that answers, and a node that has a subnet.
  pub record HasSubnet (subnet : Ip × IpNet) : Type 0 where
    pub up : Up L c
    pub host_set : stored L c (host_path hostname) ≢ []
    pub host_parses : parse_cidr (stored L c (host_path hostname)) ≡ some subnet

  -- The answer for the entry `ip` of the pool.
  abbrev pub answer : Ip × IpNet → Bytes → IpConfig
  answer subnet ip = record {
    address = first (parse_cidr ip);
    mask = subnet.1.mask;
    gateway = first (parse_cidr (stored L c (host_gw_path hostname)));
    interface = none;
  }

  module _ (subnet : Ip × IpNet) (h : HasSubnet subnet) (ip : Bytes) (ips : List Bytes)
      (free : stored L c device ≡ []) (entries : split b';' (stored L c pool) ≡ ip ∷ ips) where
    pub new :
        allocate_ip2pod E hostname container_id ifname c
        ≡ (ok (answer subnet ip), given L hostname container_id ifname c h.up ip ips)
    new =
        allocate_new L hostname container_id ifname c h.up subnet.0 subnet.1 ip ips h.host_set
          h.host_parses free entries

    -- A device without an address gets the first entry of the node's pool; the entry leaves the pool
    -- and is stored for the device, and every other key keeps its text.
    pub allocate-takes_first :
        ((allocate_ip2pod E hostname container_id ifname c).0 ≡ ok (answer subnet ip))
        × ((j : Bytes)
            → stored L (allocate_ip2pod E hostname container_id ifname c).1 j
              ≡ (if same device j then ip else if same pool j then join b';' ips else stored L c j))
    allocate-takes_first = (
      ap (λ x. x.0) new,
      λ j. rw new (stored-given L hostname container_id ifname c h.up ip ips j),
    )

  -- Where the node's pool is used up, a device without an address is still answered with success: the
  -- address is nil, no key gets a new text, and the pool stays used up.
  pub allocate-used_up :
      (subnet : Ip × IpNet)
      → HasSubnet subnet
      → stored L c device ≡ []
      → stored L c pool ≡ []
      → ((allocate_ip2pod E hostname container_id ifname c).0
          ≡ ok (record {
            address = none;
            mask = subnet.1.mask;
            gateway = first (parse_cidr (stored L c (host_gw_path hostname)));
            interface = none;
          }))
        × ((j : Bytes)
            → stored L (allocate_ip2pod E hostname container_id ifname c).1 j ≡ stored L c j)
  allocate-used_up subnet h free empty = rw (← parse_cidr-nil) (t.0, λ j. t.1 j ∙ unchanged j)
    where
      t :
          ((allocate_ip2pod E hostname container_id ifname c).0 ≡ ok (answer subnet []))
          × ((j : Bytes)
              → stored L (allocate_ip2pod E hostname container_id ifname c).1 j ≡ (
                  if same device j then [] else if same pool j then join b';' [] else stored L c j))
      t = allocate-takes_first subnet h [] [] free (rw empty split-nil)

      unchanged :
          (j : Bytes)
          → (if same device j then [] else if same pool j then join b';' [] else stored L c j)
            ≡ stored L c j
      unchanged j =
          rw (write_same (stored L c) pool j (join b';' []) (empty ∙ sym join-nil))
            (write_same (stored L c) device j [] free)
