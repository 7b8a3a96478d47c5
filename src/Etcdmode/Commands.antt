-- ===== src/Etcdmode/Commands.antt =====
-- How `cmdAdd` of the etcd address plugin ends in a process of its own: with a printed result, or with a
-- crash.
use my_cni.Prelude.{◌≡◌, ◌≢◌, sym, ◌∙◌, ap, List, [], ◌∷◌, Option, none, some, if◌then◌else◌}
use my_cni.Text.{Bytes, split, join, same}
use my_cni.Net.{Ip, IpNet, Notation6, parse_cidr}
use my_cni.Exec.{Result, ok, panic}
use my_cni.Etcd.{Etcd, IsLawful, ip_pool_path, host_path, host_gw_path}
use my_cni.Etcd.Laws.{stored, got-Up, stored-got}
use my_cni.Allocator.Pods.{allocate_unreadable}
use my_cni.Allocator.{allocate_ip2pod, first}
use my_cni.Allocator.Answers.{HasSubnet, new, answer}
use my_cni.Etcdmode.{Process, CmdArgs, cmd_add}
use my_cni.Etcdmode.Fresh.{
  fresh, dialled, Env, device_key, pool_key, Ready, ready, add_set, add_fails, ready-HasSubnet,
  stored-taken, taken,
}

module _ {E : Etcd} (V : Env E) (hostname : Option Bytes) ⦃n6 : Notation6⦄ (args : CmdArgs)
    (L : IsLawful E) (s : E.State) (r : Ready V hostname args L s) where
  -- The run of a process that has just been started.
  abbrev pub added : Result (Unit {0}) × Process E
  added = cmd_add E V.unmarshal V.connect V.print_result hostname args (fresh s)

  module _ (subnet : Ip × IpNet) (ip : Bytes) (ips : List Bytes)
      (h : HasSubnet L hostname args.container_id args.if_name (dialled s) subnet)
      (free : stored L (dialled s) (device_key V hostname args) ≡ [])
      (entries : split b';' (stored L (dialled s) (pool_key V hostname args)) ≡ ip ∷ ips) where
    allocates :
        allocate_ip2pod E hostname args.container_id args.if_name (ready V hostname args L s) ≡ (
          ok (answer L hostname args.container_id args.if_name (dialled s) subnet ip),
          taken V hostname args L s r subnet ip ips h free entries,
        )
    allocates =
        new L hostname args.container_id args.if_name (ready V hostname args L s) subnet
          (ready-HasSubnet V hostname args L s r subnet ip ips h free entries) ip ips
          (stored-got L (dialled s) ip_pool_path (device_key V hostname args) ∙ free)
          (rw (stored-got L (dialled s) ip_pool_path (pool_key V hostname args)) entries)
        ∙ ap
            (λ t. (
              ok (record (answer L hostname args.container_id args.if_name (dialled s) subnet ip) {
                gateway = first (parse_cidr t);
              }),
              taken V hostname args L s r subnet ip ips h free entries,
            ))
            (stored-got L (dialled s) ip_pool_path (host_gw_path hostname))

    -- Over a server that answers and has the cluster's pool, on a node with a subnet, for a device
    -- without an address, with a configuration that can be read and results that can be printed, a
    -- process of its own succeeds and prints one result: the address of the first entry of the
    -- node's pool, which is none where that entry is not an address, with the subnet's mask, the
    -- node's gateway and interface 2; the entry is stored for the device and leaves the node's pool,
    -- and no other key has a new text.
    pub cmd_add-answer :
        (added.0 ≡ ok tt)
        × (added.1.printed
            ≡ record (answer L hostname args.container_id args.if_name (dialled s) subnet ip) {
              interface = some 2;
            }
              ∷ [])
        × ((j : Bytes)
            → stored L (dialled added.1.server) j ≡ (
                if same (device_key V hostname args) j
                then ip
                else if same (pool_key V hostname args) j
                then join b';' ips
                else stored L (dialled s) j))
    cmd_add-answer =
        let e = add_set V hostname args L s r _ _ allocates in
        (
          ap (λ q. q.0) e,
          ap (λ q. q.1.printed) e,
          stored-taken V hostname args L s r subnet ip ips h free entries,
        )

  -- Over a server that answers and has the cluster's pool, with a configuration that can be read and
  -- results that can be printed: on a node whose subnet is no CIDR text, a process of its own panics,
  -- prints nothing and gives no key a new text.
  pub cmd_add-panics :
      stored L (dialled s) (host_path hostname) ≢ []
      → parse_cidr (stored L (dialled s) (host_path hostname)) ≡ none
      → (added.0 ≡ panic)
        × (added.1.printed ≡ [])
        × ((j : Bytes) → stored L (dialled added.1.server) j ≡ stored L (dialled s) j)
  cmd_add-panics set unreadable =
      let host = stored-got L (dialled s) ip_pool_path (host_path hostname) in
      let (e, a) =
        allocate_unreadable L hostname args.container_id args.if_name (ready V hostname args L s)
          (got-Up L (dialled s) ip_pool_path r.up) (λ z. set (sym host ∙ z)) (rw host unreadable) in
      let q = add_fails V hostname args L s r e _ a in
      (
        ap (λ x. x.0) q,
        ap (λ x. x.1.printed) q,
        λ j.
            ap (λ x. stored L (dialled x.1.server) j) q
            ∙ stored-got L (ready V hostname args L s) (host_path hostname) j
            ∙ stored-got L (dialled s) ip_pool_path j,
      )
