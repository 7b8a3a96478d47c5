-- ===== src/Examples/Noded.antt =====
-- An example of the daemon of a node: a cluster whose manager cannot be made.
use my_cni.Prelude.{◌&&◌, ◌≡◌, []}
use my_cni.Text.{codes}
use my_cni.Exec.{err, message, ok}
use my_cni.Noded.{DaemonConf, Cluster, notmain}
use my_cni.Noded.Config.{is_complete, is_loaded, code_when, Ends, notmain-code}
use my_cni.Examples.{no_v6}

abbrev cluster : Cluster
cluster = record {
  State = Unit {0};
  Config = Unit {0};
  get_config = λ s. (ok tt, s);
  new_manager = λ c s. (err (message "no manager"), s);
  get_node = λ n s. (ok (record { name = n; addresses = [] }), s);
  list_nodes = λ s. (ok [], s);
}

abbrev conf : DaemonConf
conf = record { node_name = []; pod_cidr = codes "10.244.0.0/16" }

loads : Ends cluster (cluster.get_config tt).0
loads = (λ e. cc, λ e. cc)

manages : (config t : Unit {0}) → Ends cluster (cluster.new_manager config t).0
manages config t = (λ e. cc, λ e. cc)

notmain-code_example :
    (notmain cluster (codes "n") conf tt).0
    ≡ code_when (is_complete (codes "n") conf && is_loaded cluster (cluster.get_config tt).0)
notmain-code_example = notmain-code cluster (codes "n") conf tt loads manages
