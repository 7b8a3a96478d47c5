-- ===== src/Subnetd/Daemon.antt =====
-- cmd/myetcd.go: the subnet file of a node, the daemon's round and `main`.
use my_cni.Prelude.{ℕ, [], Option, none, some, leb, if◌then◌else◌}
use my_cni.Text.{Bytes}
use my_cni.Net.{Notation6, parse_cidr}
use my_cni.Exec.{
  Exec, Error, Result, ok, err, mask_exists, subnet_file_missing, message, pure, raise, lift,
  rescue, ignore, ◌>>=◌, ◌>>◌,
}
use my_cni.Local.Host.{SubnetConf, load_subnet_config}
use my_cni.Subnetd.{
  LeaseEtcd, EtcdConfig, Kube, Process, subnet_conf, find_unused, mark, in_range, bit_of, fatally,
  on_host, init_bit_mask, renew_bit_mask, watch_bit_mask, node_names, list_node_from_k8s,
  new_etcd_manager,
}

module _ (E : LeaseEtcd) where
  module _ (marshal_subnet : SubnetConf → Bytes) where
    -- The file is written without a lock.
    unfoldable pub update_local_subnet_config : ℕ → Exec (Process E) (Unit {0})
    update_local_subnet_config not_used = on_host E (λ h.
        if h.writable
        then (ok tt, record h { subnet_file = some (marshal_subnet (subnet_conf not_used)) })
        else (err (message "open /run/testcni/subnet.json"), h))

  module _ (unmarshal_subnet : Bytes → Result SubnetConf) ⦃n6 : Notation6⦄ where
    unfoldable pub check_local_subnet_file_settings : Exec (Process E) ℕ
    check_local_subnet_file_settings = do
      conf ←
          rescue (on_host E (load_subnet_config unmarshal_subnet)) (λ e. raise subnet_file_missing)
      lift (bit_of (parse_cidr conf.subnet))

    module _ (marshal_subnet : SubnetConf → Bytes) where
      abbrev pub or_exists : Error → Exec (Process E) (Unit {0})
      or_exists mask_exists = pure tt
      or_exists e = fatally E e

      -- An error of the read is not looked at: the mask is the empty text then.
      abbrev read_mask : Option Bytes → Bytes
      read_mask none = []
      read_mask (some m) = m

      -- The first free subnet, and the mask in which it is marked.
      unfoldable pub find_subnet : Exec (Process E) (ℕ × Bytes)
      find_subnet = do
        rescue (init_bit_mask E) or_exists
        watched ← ignore (watch_bit_mask E)
        let cur_mask = read_mask watched
        not_used ← lift (find_unused 256 0 cur_mask)
        tmp ← lift (in_range (mark not_used cur_mask))
        pure (not_used, tmp)

      unfoldable pub claim_subnet : ℕ × Bytes → Exec (Process E) (Unit {0})
      claim_subnet (not_used, tmp) = do
        rescue (renew_bit_mask E tmp) (fatally E)
        rescue (update_local_subnet_config marshal_subnet not_used)
            (λ e. fatally E (message "Failed to create subnet.json!"))

      -- A node without a subnet file: a subnet is marked in the shared mask, and written to the file.
      unfoldable pub sync : Exec (Process E) (Unit {0})
      sync = do found ← find_subnet; claim_subnet found

      abbrev on_missing : Error → Exec (Process E) (Option ℕ)
      on_missing subnet_file_missing = do sync; pure none
      on_missing e = fatally E (message "Invalid subnet file!")

      abbrev known : Exec (Process E) ℕ → Exec (Process E) (Option ℕ)
      known m = do bit ← m; pure (some bit)

      abbrev invalid : Exec (Process E) (Unit {0})
      invalid = fatally E (message "Invalid subnet cidr in subnet.json!")

      -- `curBit` keeps -1 after a sync.
      abbrev check_bit : Option ℕ → Exec (Process E) (Unit {0})
      check_bit none = invalid
      check_bit (some bit) = if leb bit 255 then pure tt else invalid

      -- The body of the loop, which a round without a fatal error leaves.
      unfoldable pub round : Kube → Exec (Process E) (Unit {0})
      round kube = do
        cur_bit ← rescue (known check_local_subnet_file_settings) on_missing
        check_bit cur_bit
        rescue (do node_names E; pure tt) (fatally E)
        rescue (list_node_from_k8s E kube) (fatally E)

      unfoldable pub main :
          (EtcdConfig → Result (Unit {0}))
          → (EtcdConfig → Exec E.State (Unit {0}))
          → Kube
          → Exec (Process E) (Unit {0})
      main client_config connect kube = do
        rescue (new_etcd_manager E client_config connect)
            (λ e. fatally E (message "Failed to create etcd manager!"))
        round kube
