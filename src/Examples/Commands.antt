-- ===== src/Examples/Commands.antt =====
-- Data for the commands of the etcd address plugin: a decoder, a connection, and the keys of a node.
use my_cni.Prelude.{List, [], ◌∷◌, some}
use my_cni.Text.{Bytes, codes}
use my_cni.Exec.{Exec, Result, ok}
use my_cni.Etcd.{WrappedClient, host_path, host_pool_path, host_gw_path}
use my_cni.Etcd.Memory.{memory, Server}
use my_cni.Etcd.{ip_pool_path}
use my_cni.Allocator.{IpConfig}
use my_cni.Etcdmode.{IpamConfig, NetConfig}
use my_cni.Examples.{no_v6, node, client_of}

-- A decoder that gives one configuration, and results that can be printed.
abbrev pub ipam_config : IpamConfig
ipam_config = record { name = codes "net"; kind = codes "etcdmode" }

abbrev pub decode : Bytes → Result NetConfig
decode t = ok (record { name = codes "net"; cni_version = codes "1.0.0"; ipam = some ipam_config })

abbrev pub connects : Exec Server (Unit {0})
connects s = (ok tt, s)

abbrev pub prints : List IpConfig → Bytes → Result (Unit {0})
prints ips version = ok tt

-- A server with a cluster's pool of one subnet beside the entries `m`.
abbrev pub pooled : List (Bytes × Bytes) → WrappedClient memory
pooled m = client_of ((ip_pool_path, codes "10.1.2.0/29") ∷ m)

abbrev pub node_entries : List (Bytes × Bytes)
node_entries =
    (host_path node, codes "10.1.1.0/29")
    ∷ (host_gw_path node, codes "10.1.1.1/29")
    ∷ (host_pool_path node, codes "10.1.1.2/29;10.1.1.3/29")
    ∷ []
