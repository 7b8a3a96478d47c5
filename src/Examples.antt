-- ===== src/Examples.antt =====
-- The data of the examples: a node in a server in memory, a store with a file, a walk through a subnet.
pub mod Noded
pub mod Daemon
pub mod World
pub mod Plugin
pub mod Entries
pub mod Pods
pub mod Etcd
pub mod Hosts
pub mod Runs
pub mod Commands
pub mod Bpf
pub mod Vxlan
pub mod Tc
pub mod Local
use my_cni.Prelude.{
  ℕ, ◌+◌, ◌^◌, ◌<◌, ◌≡◌, refl, Bool, true, false, List, [], ◌∷◌, Option, none, some, arith, ltb,
  if◌then◌else◌,
}
use my_cni.Text.{Bytes, codes}
use my_cni.Net.{Notation6}
use my_cni.Etcd.{WrappedClient, host_path, host_pool_path, host_gw_path, ip_pool_path}
use my_cni.Etcd.Memory.{memory, Server}

-- A notation without addresses written with colons.
instance abbrev pub no_v6 : Notation6
no_v6 = record { parse = λ t. none; print = λ n. [] }

abbrev pub node : Option Bytes
node = some (codes "n")

abbrev pub client_of : List (Bytes × Bytes) → WrappedClient memory
client_of m = record { client = record { store = m; script = [] }; pool_init_status = false }

-- A node with a subnet and the pool `pool`.
abbrev pub with_pool : Bytes → WrappedClient memory
with_pool pool = client_of (
    (host_path node, codes "10.1.1.0/29")
    ∷ (host_gw_path node, codes "10.1.1.1/29")
    ∷ (host_pool_path node, pool)
    ∷ [])
