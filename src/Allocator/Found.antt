-- ===== src/Allocator/Found.antt =====
-- What `find_by_id` and `find_ip_by_id` see of an allocation and of a release.
use my_cni.Prelude.{◌≡◌, ◌∙◌, ap, not, List, [], ◌∷◌, Option}
use my_cni.Text.{Bytes, split, same}
use my_cni.Text.Equal.{same_refl}
use my_cni.Net.{Ip, IpNet, Notation6}
use my_cni.Exec.{ok}
use my_cni.Etcd.{Etcd, IsLawful, WrappedClient}
use my_cni.Etcd.Laws.{stored, Up, get_kv_up}
use my_cni.Allocator.{allocate_ip2pod, find_by_id, find_ip_by_id}
use my_cni.Allocator.Pods.{given, given-Up, stored-given}
use my_cni.Allocator.Answers.{HasSubnet, new, device, pool}

module _ {E : Etcd} (L : IsLawful E) (hostname : Option Bytes) ⦃n6 : Notation6⦄
    (container_id ifname : Bytes) where
  abbrev key : WrappedClient E → Bytes
  key = device L hostname container_id ifname

  find_lem :
      (c : WrappedClient E)
      → Up L c
      → (find_by_id E hostname container_id ifname c).0 ≡ ok (not (same (stored L c (key c)) []))
  unfolding find_by_id
  find_lem c up = rw (get_kv_up L c (device L hostname container_id ifname c) up)

  found_ip :
      (c : WrappedClient E)
      → Up L c
      → (find_ip_by_id E hostname container_id ifname c).0 ≡ ok (stored L c (key c))
  unfolding find_ip_by_id
  found_ip c up = rw (get_kv_up L c (device L hostname container_id ifname c) up)

  -- After an allocation that takes the entry `ip` of the pool, `FindIPByID` gives `ip`, and
  -- `FindByID` says yes unless the entry is the empty text that a used up pool has.
  pub find-allocate :
      (c : WrappedClient E) (subnet : Ip × IpNet)
      → HasSubnet L hostname container_id ifname c subnet
      → (ip : Bytes) (ips : List Bytes) → stored L c (device L hostname container_id ifname c) ≡ []
      → split b';' (stored L c (pool L hostname container_id ifname c)) ≡ ip ∷ ips
      → ((find_ip_by_id E hostname container_id ifname
            (allocate_ip2pod E hostname container_id ifname c).1).0
          ≡ ok ip)
        × ((find_by_id E hostname container_id ifname
              (allocate_ip2pod E hostname container_id ifname c).1).0
            ≡ ok (not (same ip [])))
  find-allocate c subnet h ip ips free entries =
      rw (new L hostname container_id ifname c subnet h ip ips free entries)
        (found_ip d up ∙ ap ok at_device, find_lem d up ∙ ap (λ v. ok (not (same v []))) at_device)
    where
      d : WrappedClient E
      d = given L hostname container_id ifname c h.up ip ips

      up : Up L d
      up = given-Up L hostname container_id ifname c h.up ip ips

      at_device : stored L d (device L hostname container_id ifname c) ≡ ip
      at_device =
          stored-given L hostname container_id ifname c h.up ip ips
            (device L hostname container_id ifname c)
          ∙ rw (same_refl (device L hostname container_id ifname c))
