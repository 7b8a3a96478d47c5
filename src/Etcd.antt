-- ===== src/Etcd.antt =====
-- etcdwrap/client.go: the wrapped client over an etcd server, and utils/conf_helper.go's keys.
-- The server is a parameter: the operations that the client library gives, and what it documents.
pub mod Memory
pub mod Laws
pub mod Paths
use my_cni.Prelude.{
  ◌≡◌, ◌⊎◌, Bool, true, false, not, List, [], ◌∷◌, ◌++◌, Option, none, some, if◌then◌else◌,
}
use my_cni.Text.{Bytes, codes, same}
use my_cni.Exec.{Exec, Result, ok, err, panic, pure, rescue, ◌>>=◌, ◌>>◌, ignore}

-- `client.Get`, `client.Put` and `client.Delete` of one key. A `Get` returns the values found.
pub record Etcd : Type 1 where
  pub State : Type 0
  pub get : Bytes → Exec State (List Bytes)
  pub put : Bytes → Bytes → Exec State (Unit {0})
  pub delete : Bytes → Exec State (Unit {0})

abbrev pub found : Option Bytes → List Bytes
found none = []
found (some v) = v ∷ []

-- What etcd documents: a map from keys to values. `contents` is what is stored, and a server
-- `IsUp` while it answers.
pub record IsLawful (E : Etcd) : Type 1 where
  pub contents : E.State → Bytes → Option Bytes
  pub IsUp : E.State → Type 0
  pub get_up : (s : E.State) (k : Bytes) → IsUp s → (E.get k s).0 ≡ ok (found (contents s k))
  pub get_same : (s : E.State) (k j : Bytes) → contents (E.get k s).1 j ≡ contents s j
  pub get_stays : (s : E.State) (k : Bytes) → IsUp s → IsUp (E.get k s).1
  pub put_up : (s : E.State) (k v : Bytes) → IsUp s → (E.put k v s).0 ≡ ok tt
  pub put_sets :
      (s : E.State) (k v j : Bytes)
      → IsUp s
      → contents (E.put k v s).1 j ≡ (if same k j then some v else contents s j)
  pub put_stays : (s : E.State) (k v : Bytes) → IsUp s → IsUp (E.put k v s).1
  pub delete_up : (s : E.State) (k : Bytes) → IsUp s → (E.delete k s).0 ≡ ok tt
  pub delete_clears :
      (s : E.State) (k j : Bytes)
      → IsUp s
      → contents (E.delete k s).1 j ≡ (if same k j then none else contents s j)
  pub delete_stays : (s : E.State) (k : Bytes) → IsUp s → IsUp (E.delete k s).1

-- `resp.Kvs[len(resp.Kvs)-1:][0].Value`, and "" if nothing was found.
abbrev last_value : List Bytes → Bytes
last_value [] = []
last_value (v ∷ []) = v
last_value (v ∷ w ∷ vs) = last_value (w ∷ vs)

-- `WrappedClient`. Only `set_init_pool_status` touches the flag, and nothing reads it.
pub record WrappedClient (E : Etcd) : Type 0 where
  pub client : E.State
  pub pool_init_status : Bool

module _ {E : Etcd} {A : Type 0} where
  abbrev pub relay : WrappedClient E → Result A × E.State → Result A × WrappedClient E
  relay c (r, s) = (r, record c { client = s })

module _ (E : Etcd) where
  unfoldable pub get_kv : Bytes → Exec (WrappedClient E) Bytes
  get_kv key = do kvs ← (λ c. relay c (E.get key c.client)); pure (last_value kvs)

  unfoldable pub put_kv : Bytes → Bytes → Exec (WrappedClient E) (Unit {0})
  put_kv key value c = relay c (E.put key value c.client)

  unfoldable pub del_kv : Bytes → Exec (WrappedClient E) (Unit {0})
  del_kv key c = relay c (E.delete key c.client)

  unfoldable pub set_init_pool_status : Bool → Exec (WrappedClient E) (Unit {0})
  set_init_pool_status stat c = (ok tt, record c { pool_init_status = stat })

  -- The library's call is a parameter; its error is dropped.
  unfoldable pub close_etcd_client : Exec E.State (Unit {0}) → Exec (WrappedClient E) (Unit {0})
  close_etcd_client shut = do ignore (λ c. relay c (shut c.client)); pure tt

abbrev pub prefix : Bytes
prefix = codes "mycni/ipam/"

-- The keys of the program; `none` is a failure of `os.Hostname`.
unfoldable pub host_path : Option Bytes → Bytes
host_path none = codes "/test-error-path"
host_path (some name) = prefix ++ name

unfoldable pub ip_pool_path : Bytes
ip_pool_path = prefix ++ codes "pool"

module _ (hostname : Option Bytes) where
  unfoldable pub host_pool_path : Bytes
  host_pool_path = host_path hostname ++ codes "/pool"

  unfoldable pub host_gw_path : Bytes
  host_gw_path = host_path hostname ++ codes "/gateway"

  unfoldable pub net_device_path : Bytes → Bytes
  net_device_path id = host_path hostname ++ b'/' ∷ id

-- `GetInitPoolStatus`: whether the key of the pool has a value, and false on an error.
module _ (E : Etcd) where
  unfoldable pub get_init_pool_status : Exec (WrappedClient E) Bool
  get_init_pool_status =
      rescue (do resp ← get_kv E ip_pool_path; pure (not (same resp []))) (λ e. pure false)
