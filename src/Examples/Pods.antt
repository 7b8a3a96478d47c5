-- ===== src/Examples/Pods.antt =====
-- Examples of a pod's address over both plugins: the main plugin starts the etcd address plugin.
use my_cni.Prelude.{
  none, some, if◌then◌else◌, ◌≡◌, ◌≢◌, ap, sym, refl, List, [], ◌∷◌, ◌++◌, false, subst,
}
use my_cni.Text.{Bytes, codes, split, join, same}
use my_cni.Net.{parse_cidr, parse_ip, cut_slash, octet, dtoi, masked, parse_dotted, kind}
use my_cni.Exec.{ok, panic}
use my_cni.Etcd.{host_path, host_pool_path, host_gw_path, net_device_path, ip_pool_path}
use my_cni.Etcd.Memory.{memory, memory-IsLawful, Server}
use my_cni.Etcd.Laws.{stored}
use my_cni.Allocator.Answers.{HasSubnet, answer}
use my_cni.Etcdmode.{CmdArgs, load_ipam_config}
use my_cni.Etcdmode.Fresh.{
  dialled, Env, after_add, after_del, Ready, device_key, pool_key, cmd_del-cmd_add,
}
use my_cni.Etcdmode.Commands.{added, cmd_add-answer, cmd_add-panics}
use my_cni.Kernel.{World}
use my_cni.Kernel.Untouched.{Untouched, MapsUntouched}
use my_cni.Ifaces.{exec_add, exec_del}
use my_cni.Vxlan.Returned.{handed_on, Runs, server_end, cmd_add-returned}
use my_cni.Examples.{no_v6, node}
use my_cni.Examples.Etcd.{subnet}
use my_cni.Examples.Commands.{decode, connects, prints, ipam_config, pooled, node_entries}
use my_cni.Examples.World.{Host, world_of, idle_with, reply}
use my_cni.Examples.Plugin.{
  args, net_conf, unmarshal, load_args, loads, layer3, ends_of, untouched_of, maps_untouched_of,
}

abbrev env : Env memory
env = record { unmarshal = decode; connect = connects; print_result = prints; connects = λ s. refl }

abbrev server : Server
server = (pooled node_entries).client

abbrev pod : CmdArgs
pod = handed_on args

abbrev rest_ips : List Bytes
rest_ips = codes "10.1.1.3/29" ∷ []

pool_filled : stored memory-IsLawful (dialled server) ip_pool_path ≢ []
unfolding memory-IsLawful host_path ip_pool_path host_pool_path host_gw_path same
pool_filled e = subst (λ (t : Bytes). elim t [ [] ↦ ⊥ | a ∷ b ↦ Unit {0} ]) e tt

pod-Ready : Ready env node pod memory-IsLawful server
unfolding memory-IsLawful load_ipam_config
pod-Ready = record {
  config = ipam_config;
  conf_version = codes "1.0.0";
  loads = refl;
  prints = λ ips. refl;
  up = refl;
  filled = pool_filled;
}

pod-HasSubnet : HasSubnet memory-IsLawful node pod.container_id pod.if_name (dialled server) subnet
unfolding memory-IsLawful host_path ip_pool_path host_pool_path host_gw_path parse_cidr parse_ip
    cut_slash octet dtoi masked split parse_dotted kind same
pod-HasSubnet = record {
  up = refl;
  host_set = λ e. subst (λ (t : Bytes). elim t [ [] ↦ ⊥ | a ∷ b ↦ Unit {0} ]) e tt;
  host_parses = refl;
}

pod_free : stored memory-IsLawful (dialled server) (device_key env node pod) ≡ []
unfolding memory-IsLawful host_path ip_pool_path host_pool_path host_gw_path net_device_path same
pod_free = refl

pod-entries :
    split b';' (stored memory-IsLawful (dialled server) (pool_key env node pod))
    ≡ codes "10.1.1.2/29" ∷ rest_ips
unfolding memory-IsLawful host_path ip_pool_path host_pool_path host_gw_path split same
pod-entries = refl

filled : codes "10.1.1.2/29" ≢ []
filled e = subst (λ (t : Bytes). elim t [ [] ↦ ⊥ | a ∷ b ↦ Unit {0} ]) e tt

cmd_add-answer_example :
    ((added env node pod memory-IsLawful server pod-Ready).0 ≡ ok tt)
    × ((added env node pod memory-IsLawful server pod-Ready).1.printed
        ≡ record (answer memory-IsLawful node pod.container_id pod.if_name
            (dialled server)
            subnet
            (codes "10.1.1.2/29")) { interface = some 2 }
          ∷ [])
    × ((j : Bytes)
        → stored memory-IsLawful
            (dialled (added env node pod memory-IsLawful server pod-Ready).1.server)
            j
          ≡ (if same (device_key env node pod) j
              then codes "10.1.1.2/29"
              else if same (pool_key env node pod) j
              then join b';' rest_ips
              else stored memory-IsLawful (dialled server) j))
cmd_add-answer_example =
    cmd_add-answer env node pod memory-IsLawful server pod-Ready subnet (codes "10.1.1.2/29")
      rest_ips pod-HasSubnet pod_free pod-entries

-- A node whose subnet text is not a CIDR text.
abbrev bad_server : Server
bad_server = (pooled ((host_path node, codes "x") ∷ [])).client

bad_filled : stored memory-IsLawful (dialled bad_server) ip_pool_path ≢ []
unfolding memory-IsLawful host_path ip_pool_path same
bad_filled e = subst (λ (t : Bytes). elim t [ [] ↦ ⊥ | a ∷ b ↦ Unit {0} ]) e tt

bad-Ready : Ready env node pod memory-IsLawful bad_server
unfolding memory-IsLawful load_ipam_config
bad-Ready = record {
  config = ipam_config;
  conf_version = codes "1.0.0";
  loads = refl;
  prints = λ ips. refl;
  up = refl;
  filled = bad_filled;
}

bad_set : stored memory-IsLawful (dialled bad_server) (host_path node) ≢ []
unfolding memory-IsLawful host_path ip_pool_path same
bad_set e = subst (λ (t : Bytes). elim t [ [] ↦ ⊥ | a ∷ b ↦ Unit {0} ]) e tt

bad_unreadable : parse_cidr (stored memory-IsLawful (dialled bad_server) (host_path node)) ≡ none
unfolding memory-IsLawful host_path ip_pool_path same parse_cidr cut_slash
bad_unreadable = refl

cmd_add-panics_example :
    ((added env node pod memory-IsLawful bad_server bad-Ready).0 ≡ panic)
    × ((added env node pod memory-IsLawful bad_server bad-Ready).1.printed ≡ [])
    × ((j : Bytes)
        → stored memory-IsLawful
            (dialled (added env node pod memory-IsLawful bad_server bad-Ready).1.server)
            j
          ≡ stored memory-IsLawful (dialled bad_server) j)
cmd_add-panics_example =
    cmd_add-panics env node pod memory-IsLawful bad_server bad-Ready bad_set bad_unreadable

cmd_del-cmd_add_example :
    (stored memory-IsLawful
        (dialled (after_del env node pod (after_add env node pod server)))
        (device_key env node pod)
      ≡ [])
    × (split b';' (
          stored memory-IsLawful
            (dialled (after_del env node pod (after_add env node pod server)))
            (pool_key env node pod))
        ≡ split b';' (join b';' rest_ips) ++ codes "10.1.1.2/29" ∷ [])
    × ((j : Bytes)
        → same (device_key env node pod) j ≡ false
        → same (pool_key env node pod) j ≡ false
        → stored memory-IsLawful
            (dialled (after_del env node pod (after_add env node pod server)))
            j
          ≡ stored memory-IsLawful (dialled server) j)
cmd_del-cmd_add_example =
    cmd_del-cmd_add env node pod memory-IsLawful server pod-Ready subnet (codes "10.1.1.2/29")
      rest_ips pod-HasSubnet pod_free pod-entries filled

-- The main plugin's host, with the server beside it.
abbrev give : Server → Server
give s = after_add env node pod s

abbrev take : Server → Server
take s = after_del env node pod s

abbrev net : World
net = world_of give take

abbrev untouched : Untouched net
untouched = untouched_of give take

abbrev maps_untouched : MapsUntouched untouched
maps_untouched = maps_untouched_of give take

runs : Runs env node net untouched maps_untouched net_conf args
unfolding exec_add exec_del
runs = record { server = λ s. s; adds = λ s t r e. ap (λ q. q.1.leased) (sym e); dels = λ s. refl }

abbrev given : Host Server
given = idle_with (give server)

gives : exec_add net net_conf.ipam_type args.stdin_data (idle_with server) ≡ (ok reply, given)
unfolding exec_add
gives = refl

abbrev server_after : Server
server_after =
    server_end env node net untouched maps_untouched net_conf args runs unmarshal load_args reply
      (idle_with server) given loads layer3 gives (ends_of give take server)

cmd_add-returned_example :
    (stored memory-IsLawful (dialled server_after) (device_key env node pod) ≡ [])
    × (split b';' (stored memory-IsLawful (dialled server_after) (pool_key env node pod))
        ≡ split b';' (join b';' rest_ips) ++ codes "10.1.1.2/29" ∷ [])
    × ((j : Bytes)
        → same (device_key env node pod) j ≡ false
        → same (pool_key env node pod) j ≡ false
        → stored memory-IsLawful (dialled server_after) j
          ≡ stored memory-IsLawful (dialled server) j)
unfolding runs
cmd_add-returned_example =
    cmd_add-returned env node net untouched maps_untouched net_conf args runs unmarshal load_args
      reply (idle_with server) given loads layer3 gives (ends_of give take server) memory-IsLawful
      pod-Ready subnet (codes "10.1.1.2/29") rest_ips pod-HasSubnet pod_free pod-entries filled
