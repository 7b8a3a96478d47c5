-- ===== src/Local/Host/Commands.antt =====
-- The commands of the local address plugin, from the configuration to the printed result.
use my_cni.Prelude.{
  ℕ, ◌^◌, ◌≤◌, ◌<◌, ◌≡◌, refl, true, false, [], ◌∷◌, ◌++◌, Option, none, some, arith,
}
use my_cni.Text.{Bytes, join}
use my_cni.Text.Equal.{same_refl}
use my_cni.Net.{dotted, itoa, Ip, v4, IpNet, Notation6, parse_cidr, network}
use my_cni.Net.Dotted.{parse_cidr-dotted}
use my_cni.Exec.{Error, Result, ok, err}
use my_cni.Local.Store.{Data, saved, Store, key_of}
use my_cni.Local.Ipam.{Ipam, new_ipam, allocate_ip}
use my_cni.Local.Ipam.Search.{IsRange}
use my_cni.Local.Ipam.Safety.{
  Allocation, given, used_up, allocate_ip-Allocation, StartsAt, looked, changed, with_entry,
  is_used,
}
use my_cni.Local.Host.{
  Host, CniConf, PluginConf, SubnetConf, CniResult, Args, load_cni_config, new_store, close,
  file_path, put_store, fresh, cluster_cidr, answer_add, cmd_add,
}

cluster-text : dotted 183762944 ++ b'/' ∷ itoa 16 ≡ cluster_cidr
unfolding dotted itoa join
cluster-text = refl

abbrev pub cluster : IpNet
cluster = network (v4 183762944) 16

cluster_lem : ⦃n6 : Notation6⦄ → parse_cidr cluster_cidr ≡ some (v4 183762944, cluster)
cluster_lem = rw (← cluster-text) (parse_cidr-dotted 183762944 16 (omega arith) (omega arith))

module _ (unmarshal_plugin : Bytes → Result PluginConf)
    (unmarshal_subnet : Bytes → Result SubnetConf)
    (print_result : CniResult → Bytes → Result (Unit {0})) (cip_next : Option Ip → Option Ip)
    ⦃n6 : Notation6⦄ (args : Args) (h : Host) where
  -- A configuration that can be read, with a subnet, and a path whose lock can be made.
  pub record Begins (im : Ipam) : Type 0 where
    pub conf : CniConf
    pub loads : load_cni_config unmarshal_plugin unmarshal_subnet args.stdin_data h ≡ (ok conf, h)
    pub manages : new_ipam cip_next conf.subnet.subnet ≡ ok im
    pub locks : h.lockable (file_path conf.plugin.data_dir conf.plugin.name) ≡ true

  module _ {im : Ipam} (b : Begins im) where
    abbrev pub path : Bytes
    path = file_path b.conf.plugin.data_dir b.conf.plugin.name

    -- The store of the path as the command finds it.
    abbrev pub store_now : Store
    store_now = fresh (h.stores path)

    -- The host after a command that leaves the store `s`.
    abbrev pub left : Store → Host
    left s = record (put_store path s (put_store path store_now h)) {
      closed = h.closed ++ path ∷ [];
    }

    abbrev pub printing : CniResult → Host → Host
    printing r t = record t { printed = t.printed ++ r ∷ [] }

    -- The two ends of the command for a new container.
    pub data Added (g top : ℕ) (d : Data) : Result (Unit {0}) × Host → Type 0 where
      printed :
          (n : ℕ)
          → g < n
          → n ≤ top
          → is_used n d ≡ false
          → Added g top d (
            ok tt,
            printing
                (answer_add im (some (v4 n)) cluster)
                (left (changed (with_entry n args.container_id args.if_name d) store_now)),
          )
      refused :
          (e : Error)
          → ((n : ℕ) → g < n → n ≤ top → is_used n d ≡ true)
          → Added g top d (err e, left (looked d store_now))

    add_from :
        (g top : ℕ) (d : Data) (a : Result (Option Ip) × Store)
        → Allocation g top args.container_id args.if_name d store_now a
        → allocate_ip cip_next im args.container_id args.if_name store_now ≡ a
        → ((r : CniResult) → print_result r b.conf.plugin.cni_version ≡ ok tt)
        → Added g top d (cmd_add unmarshal_plugin unmarshal_subnet print_result cip_next args h)
    unfolding cmd_add new_store close
    add_from g top d a (given n x y u) e o =
        rw (b.loads, b.locks, b.manages, same_refl path, e, cluster_lem, o _) (printed n x y u)
    add_from g top d a (used_up er u) e o =
        rw (b.loads, b.locks, b.manages, same_refl path, e) (refused er u)

    -- For a container without an address, `cmdAdd` prints one result, with an address of the subnet
    -- behind the gateway that was free and is now the container's in the file, or it fails where
    -- each address of the subnet has a container; either way it closes the store.
    pub cmd_add-Added :
        (g top l : ℕ) (d : Data) (r : IsRange cip_next im g top) (small : top < 2 ^ 32)
        → StartsAt cip_next im g top r small l d
        → (h.stores path).file ≡ saved d
        → (h.stores path).writable ≡ true
        → key_of args.container_id d.ips ≡ none
        → ((r : CniResult) → print_result r b.conf.plugin.cni_version ≡ ok tt)
        → Added g top d (cmd_add unmarshal_plugin unmarshal_subnet print_result cip_next args h)
    cmd_add-Added g top l d r small a f w k o =
        add_from g top d (allocate_ip cip_next im args.container_id args.if_name store_now)
          (allocate_ip-Allocation cip_next im g top r small args.container_id args.if_name d
            store_now l a f w k)
          refl o
