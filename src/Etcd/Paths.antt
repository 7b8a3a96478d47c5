-- ===== src/Etcd/Paths.antt =====
-- The keys of one node differ from each other.
use my_cni.Prelude.{ℕ, ◌≡◌, ◌≢◌, refl, sym, ◌∙◌, false, [], ◌∷◌, ◌++◌, Option, none, some, arith}
use my_cni.Text.{Bytes, codes, same, Lacks}
use my_cni.Text.Equal.{same_ne, same-append, Lacks-append-cons}
use my_cni.Etcd.{host_path, host_pool_path, host_gw_path, net_device_path, ip_pool_path, prefix}

-- A device's name is a container's and an interface's, with a dash between them.
abbrev pub device_id : Bytes → Bytes → Bytes
device_id container_id ifname = container_id ++ b'-' ∷ ifname

-- A text that lacks a byte is no text that holds it.
same-Lacks : (b : ℕ) (t p s : Bytes) → Lacks b t → same t (p ++ b ∷ s) ≡ false
same-Lacks b t p s h = same_ne _ _ (λ e. Lacks-append-cons b p s (rw e at h))

same-append_self : (p : Bytes) (b : ℕ) (s : Bytes) → same p (p ++ b ∷ s) ≡ false
unfolding same
same-append_self [] b s = refl
same-append_self (a ∷ p) b s = ground (arith, same-append_self p b s)

module _ (hostname : Option Bytes) where
  pub host-pool : same (host_path hostname) (host_pool_path hostname) ≡ false
  unfolding host_pool_path
  host-pool = same-append_self (host_path hostname) _ _

  pub host-device : (id : Bytes) → same (host_path hostname) (net_device_path hostname id) ≡ false
  unfolding net_device_path
  host-device id = same-append_self (host_path hostname) _ _

  pub gw-pool : same (host_gw_path hostname) (host_pool_path hostname) ≡ false
  unfolding host_pool_path host_gw_path same
  gw-pool = same-append (host_path hostname) (codes "/gateway") (codes "/pool")

  pub pool-device :
      (c i : Bytes)
      → same (host_pool_path hostname) (net_device_path hostname (device_id c i)) ≡ false
  unfolding host_pool_path net_device_path
  pool-device c i =
      same-append (host_path hostname) (codes "/pool") (b'/' ∷ device_id c i)
      ∙ same-Lacks b'-' (codes "/pool") (b'/' ∷ c) i (omega arith)

  pub gw-device :
      (c i : Bytes)
      → same (host_gw_path hostname) (net_device_path hostname (device_id c i)) ≡ false
  unfolding host_gw_path net_device_path
  gw-device c i =
      same-append (host_path hostname) (codes "/gateway") (b'/' ∷ device_id c i)
      ∙ same-Lacks b'-' (codes "/gateway") (b'/' ∷ c) i (omega arith)

  pub device-device :
      (x y : Bytes) → same (net_device_path hostname x) (net_device_path hostname y) ≡ same x y
  unfolding net_device_path same
  device-device x y = same-append (host_path hostname) (b'/' ∷ x) (b'/' ∷ y)

  -- The key of the cluster's pool is below no host's key.
  pub cluster-below : (b : Bytes) → same ip_pool_path (host_path hostname ++ b'/' ∷ b) ≡ false
  unfolding ip_pool_path host_path same
  cluster-below b = below hostname
    where
      below : (h : Option Bytes) → same ip_pool_path (host_path h ++ b'/' ∷ b) ≡ false
      below none = refl
      below (some name) =
          same-append prefix (codes "pool") (name ++ b'/' ∷ b)
          ∙ same-Lacks b'/' (codes "pool") name b (omega arith)

  pub cluster-device : (id : Bytes) → same ip_pool_path (net_device_path hostname id) ≡ false
  unfolding net_device_path
  cluster-device id = cluster-below id

  pub cluster-pool : same ip_pool_path (host_pool_path hostname) ≡ false
  unfolding host_pool_path
  cluster-pool = cluster-below (codes "pool")

  pub cluster-gw : same ip_pool_path (host_gw_path hostname) ≡ false
  unfolding host_gw_path
  cluster-gw = cluster-below (codes "gateway")

-- A host of the name "pool" would keep its subnet in the place of the cluster's pool.
pub cluster-host :
    (name : Bytes) → name ≢ codes "pool" → same ip_pool_path (host_path (some name)) ≡ false
unfolding ip_pool_path host_path
cluster-host name h =
    same-append prefix (codes "pool") name ∙ same_ne (codes "pool") name (λ e. h (sym e))
