-- ===== src/Vxlan/Returned.antt =====
-- The main plugin over the etcd address plugin: where a pod's address is after `cmdAdd`.
use my_cni.Prelude.{◌≡◌, ◌≢◌, ◌∙◌, ap, false, Option, List, [], ◌∷◌, ◌++◌}
use my_cni.Text.{Bytes, split, join, same}
use my_cni.Net.{Ip, IpNet, Notation6}
use my_cni.Exec.{Result, ok, hang}
use my_cni.Etcd.{Etcd, IsLawful}
use my_cni.Etcd.Laws.{stored}
use my_cni.Allocator.Answers.{HasSubnet}
use my_cni.Etcdmode.{CmdArgs}
use my_cni.Etcdmode.Fresh.{
  dialled, Env, after_add, after_del, Ready, device_key, pool_key, cmd_del-cmd_add,
}
use my_cni.Kernel.{World}
use my_cni.Kernel.Untouched.{Untouched, MapsUntouched}
use my_cni.Ifaces.{exec_add, exec_del}
use my_cni.Vxlan.{NetConf, K8sEnvArgs, load_net_conf}
use my_cni.Vxlan.Plugin.{cmd_add}
use my_cni.Vxlan.Release.{before_del, cmd_add-releases}

-- What the address plugin is called with: the CNI library hands on its own arguments.
abbrev pub handed_on : my_cni.Vxlan.Plugin.CmdArgs → CmdArgs
handed_on args = record {
  container_id = args.container_id;
  if_name = args.if_name;
  stdin_data = args.stdin_data;
}

module _ {E : Etcd} (V : Env E) (hostname : Option Bytes) (W : World) (U : Untouched W)
    (M : MapsUntouched U) (n : NetConf) (args : my_cni.Vxlan.Plugin.CmdArgs) ⦃n6 : Notation6⦄ where
  -- The address plugin that is started is that of etcd, as a process of its own for each command, and
  -- nothing else changes the server's keys meanwhile.
  pub record Runs : Type 0 where
    pub server : U.View → E.State
    pub adds :
        (s t : W.bpf.State) (r : W.Reply)
        → exec_add W n.ipam_type args.stdin_data s ≡ (ok r, t)
        → server (U.view t) ≡ after_add V hostname (handed_on args) (server (U.view s))
    pub dels :
        (s : W.bpf.State)
        → server (U.view (exec_del W n.ipam_type args.stdin_data s).1)
          ≡ after_del V hostname (handed_on args) (server (U.view s))

  module _ (R : Runs) (unmarshal : Bytes → Result NetConf) (load_args : Bytes → Result K8sEnvArgs)
      (r : W.Reply) (s given : W.bpf.State)
      (loads : load_net_conf unmarshal load_args args.stdin_data args.args ≡ ok n)
      (layer3 : same n.ipam_type [] ≡ false)
      (gives : exec_add W n.ipam_type args.stdin_data s ≡ (ok r, given))
      (ends : (cmd_add W unmarshal load_args args s).0 ≢ hang) where
    -- The server after the command.
    abbrev pub server_end : E.State
    server_end = R.server (U.view (cmd_add W unmarshal load_args args s).1)

    added_and_deleted :
        server_end
        ≡ after_del V hostname
            (handed_on args)
            (after_add V hostname (handed_on args) (R.server (U.view s)))
    added_and_deleted =
        let q = cmd_add-releases unmarshal load_args U M args n r s given loads layer3 gives ends in
        ap (λ t. R.server (U.view t)) q.0
        ∙ R.dels (before_del unmarshal load_args U M args n r s given loads layer3 gives)
        ∙ ap (λ v. after_del V hostname (handed_on args) (R.server v)) q.1
        ∙ ap (after_del V hostname (handed_on args)) (R.adds s given r gives)

    -- With the etcd address plugin over a server that answers, and a node with a subnet, a `cmdAdd`
    -- that ends for an interface without an address leaves it without one, also when it succeeds: the
    -- address that it was given stands at the end of the node's pool for the next pod, and no key but
    -- these two has a new text.
    pub cmd_add-returned :
        (L : IsLawful E)
        → Ready V hostname (handed_on args) L (R.server (U.view s))
        → (subnet : Ip × IpNet) (ip : Bytes) (ips : List Bytes)
        → HasSubnet L hostname args.container_id args.if_name (dialled (R.server (U.view s))) subnet
        → stored L (dialled (R.server (U.view s))) (device_key V hostname (handed_on args)) ≡ []
        → split b';'
            (stored L (dialled (R.server (U.view s))) (pool_key V hostname (handed_on args)))
          ≡ ip ∷ ips
        → ip ≢ []
        → (stored L (dialled server_end) (device_key V hostname (handed_on args)) ≡ [])
          × (split b';' (stored L (dialled server_end) (pool_key V hostname (handed_on args)))
              ≡ split b';' (join b';' ips) ++ ip ∷ [])
          × ((j : Bytes)
              → same (device_key V hostname (handed_on args)) j ≡ false
              → same (pool_key V hostname (handed_on args)) j ≡ false
              → stored L (dialled server_end) j ≡ stored L (dialled (R.server (U.view s))) j)
    cmd_add-returned L ready subnet ip ips h free entries filled = rw added_and_deleted (
        cmd_del-cmd_add V hostname (handed_on args) L (R.server (U.view s)) ready subnet ip ips h
          free entries filled)
