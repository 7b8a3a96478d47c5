-- ===== src/Allocator/Hosts.antt =====
-- How a node gets its subnet from the cluster's pool.
use my_cni.Prelude.{◌≡◌, ◌≢◌, refl, ◌∙◌, ap, List, [], ◌∷◌, Option, if◌then◌else◌}
use my_cni.Text.{Bytes, split, join, same}
use my_cni.Text.Equal.{same_ne, same_refl}
use my_cni.Net.{Notation6}
use my_cni.Exec.{ok, panic}
use my_cni.Utils.{get_gateway, get_valid_ips, convert_string_to_array, convert_array_to_string}
use my_cni.Etcd.{
  Etcd, IsLawful, WrappedClient, host_path, host_pool_path, host_gw_path, ip_pool_path,
}
use my_cni.Etcd.Laws.{
  got, wrote, stored, Up, get_kv_up, put_kv_up, got-Up, wrote-Up, stored-got, stored-wrote,
}
use my_cni.Allocator.Answers.{split-nil}
use my_cni.Allocator.{allocate_ip2host, allocate_subnet, get_one_ip_from_pool}

module _ {E : Etcd} (L : IsLawful E) (hostname : Option Bytes) ⦃n6 : Notation6⦄
    (c : WrappedClient E) (up : Up L c) where
  abbrev host : Bytes
  host = host_path hostname

  abbrev read : WrappedClient E
  read = got ip_pool_path (got host c)

  read-Up : Up L read
  read-Up = got-Up L _ ip_pool_path (got-Up L c host up)

  stored-read : (j : Bytes) → stored L read j ≡ stored L c j
  stored-read j = stored-got L (got host c) ip_pool_path j ∙ stored-got L c host j

  -- A node that has a subnet keeps it.
  pub allocate-keeps_subnet :
      stored L c (host_path hostname) ≢ []
      → allocate_ip2host E hostname c
        ≡ (ok (stored L c (host_path hostname)), got (host_path hostname) c)
  unfolding allocate_ip2host
  allocate-keeps_subnet h = rw (get_kv_up L c host up, same_ne _ _ h)

  module _ (cidr : Bytes) (rest : List Bytes) (none_yet : stored L c (host_path hostname) ≡ [])
      (entries : split b';' (stored L c ip_pool_path) ≡ cidr ∷ rest) where
    -- The clients behind the first two writes.
    abbrev popped : WrappedClient E
    popped = wrote ip_pool_path (join b';' rest) read

    popped-Up : Up L popped
    popped-Up = wrote-Up L _ ip_pool_path read-Up _

    abbrev claimed : WrappedClient E
    claimed = wrote host cidr popped

    claimed-Up : Up L claimed
    claimed-Up = wrote-Up L _ host popped-Up _

    pop : get_one_ip_from_pool E ip_pool_path (got host c) ≡ (ok cidr, popped)
    unfolding get_one_ip_from_pool convert_string_to_array convert_array_to_string
    pop = rw (
      get_kv_up L (got host c) ip_pool_path (got-Up L c host up),
      stored-got L c host ip_pool_path,
      entries,
      put_kv_up L read ip_pool_path read-Up (join b';' rest),
    )

    module _ (gateway : Bytes) (ips : List Bytes) (has_gateway : get_gateway cidr ≡ ok gateway)
        (valid : get_valid_ips cidr ≡ ok ips) where
      abbrev done : WrappedClient E
      done =
          wrote (host_pool_path hostname) (join b';' ips)
            (wrote (host_gw_path hostname) gateway claimed)

      allocate_new_subnet : allocate_ip2host E hostname c ≡ (ok cidr, done)
      unfolding allocate_ip2host allocate_subnet convert_array_to_string
      allocate_new_subnet = rw (
        get_kv_up L c host up,
        none_yet,
        same_refl [],
        pop,
        put_kv_up L popped host popped-Up cidr,
        has_gateway,
        put_kv_up L claimed (host_gw_path hostname) claimed-Up gateway,
        valid,
        put_kv_up L (wrote (host_gw_path hostname) gateway claimed) (host_pool_path hostname)
            (wrote-Up L _ _ claimed-Up _) (join b';' ips),
      )

      -- A node without a subnet gets the first one of the cluster's pool. The pool loses it, the node's
      -- subnet, gateway and pool are written, and every other key keeps its text.
      pub allocate-takes_subnet :
          ((allocate_ip2host E hostname c).0 ≡ ok cidr)
          × ((j : Bytes)
              → stored L (allocate_ip2host E hostname c).1 j ≡ (
                  if same (host_pool_path hostname) j
                  then join b';' ips
                  else if same (host_gw_path hostname) j
                  then gateway
                  else if same (host_path hostname) j
                  then cidr
                  else if same ip_pool_path j
                  then join b';' rest
                  else stored L c j))
      allocate-takes_subnet = (
        ap (λ x. x.0) allocate_new_subnet,
        λ j. ap (λ x. stored L x.1 j) allocate_new_subnet ∙ stored-done j,
      )
        where
          stored-done :
              (j : Bytes)
              → stored L done j ≡ (
                  if same (host_pool_path hostname) j
                  then join b';' ips
                  else if same (host_gw_path hostname) j
                  then gateway
                  else if same host j
                  then cidr
                  else if same ip_pool_path j
                  then join b';' rest
                  else stored L c j)
          stored-done j = rw (
            stored-wrote L (wrote (host_gw_path hostname) gateway claimed) (host_pool_path hostname)
                (wrote-Up L _ _ claimed-Up _) (join b';' ips) j,
            stored-wrote L claimed (host_gw_path hostname) claimed-Up gateway j,
            stored-wrote L popped host popped-Up cidr j,
            stored-wrote L read ip_pool_path read-Up (join b';' rest) j,
            stored-read j,
          )

  -- Where the cluster's pool is used up, or not yet filled, the call for a node without a subnet
  -- panics.
  pub allocate-panics :
      stored L c (host_path hostname) ≡ []
      → stored L c ip_pool_path ≡ []
      → (allocate_ip2host E hostname c).0 ≡ panic
  unfolding allocate_ip2host allocate_subnet
  allocate-panics none_yet empty = rw (
    get_kv_up L c host up,
    none_yet,
    same_refl [],
    pop [] [] none_yet (rw empty split-nil),
    put_kv_up L (popped [] [] none_yet (rw empty split-nil)) host
        (popped-Up [] [] none_yet (rw empty split-nil)) [],
    no_gateway,
  )
    where
      no_gateway : get_gateway [] ≡ panic
      no_gateway = unfold get_gateway split in refl
