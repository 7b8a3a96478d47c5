-- ===== src/InitPool.antt =====
-- plugins/ipam/etcdmode/initpool/init_conf.go: the cluster's pool of subnets.
pub mod Fill
use my_cni.Prelude.{ℕ, zero, suc, ◌+◌, Bool, true, false, List, [], ◌∷◌, ◌++◌, if◌then◌else◌}
use my_cni.Text.{Bytes, codes, join}
use my_cni.Net.{itoa}
use my_cni.Exec.{Exec, pure, wrap, ◌>>=◌, ◌>>◌}
use my_cni.Etcd.{
  Etcd, WrappedClient, put_kv, del_kv, get_init_pool_status, set_init_pool_status, ip_pool_path,
}

-- Rounds `i` to `i + n - 1` of the loop.
abbrev pub cidrs_from : ℕ → ℕ → List Bytes
cidrs_from i zero = []
cidrs_from i (suc n) = (codes "10.1." ++ itoa (i + 1) ++ codes ".0/28") ∷ cidrs_from (i + 1) n

unfoldable pub random_generate_ip_cidrs : List Bytes
random_generate_ip_cidrs = cidrs_from 0 16

module _ (E : Etcd) where
  unfoldable pub init_pool : Exec (WrappedClient E) Bool
  init_pool = do
    ready ← get_init_pool_status E
    if ready then pure true else do
      wrap "Cannot add ipcidr into pool! %v"
          (put_kv E ip_pool_path (join b';' random_generate_ip_cidrs))
      set_init_pool_status E true
      pure true

  unfoldable pub release_pool : Exec (WrappedClient E) Bool
  release_pool = do
    wrap "Release ip pool failed! Error is %v" (del_kv E ip_pool_path)
    set_init_pool_status E false
    pure true
