-- ===== src/Ifaces/Untouched.antt =====
-- Putting a result on a link leaves the rest of the host alone.
use my_cni.Prelude.{Option, none, some, List, [], ◌∷◌}
use my_cni.Text.{Bytes}
use my_cni.Net.{Ip}
use my_cni.Exec.Keeps.{Keeps, Keeps-then, Keeps-wrap, Keeps-ignore, Keeps-pure, keeps_rules}
use my_cni.Kernel.{World, Link, Interface, CniResult, ResultRoute}
use my_cni.Kernel.Untouched.{Untouched}
use my_cni.Allocator.{IpConfig}
use my_cni.Ifaces.{
  next_gateways, add_addresses, settle_v6, add_routes, configure_link, configure_iface,
}

module _ {W : World} (U : Untouched W) where
  add_addresses-Keeps :
      (l : Link) (g : Option Ip × Option Ip) (ips : List IpConfig)
      → Keeps U.view (add_addresses W l g ips)
  unfolding add_addresses
  add_addresses-Keeps l g [] = search keeps_rules
  add_addresses-Keeps l g (ipc ∷ ips) =
      Keeps-then _ _ (Keeps-wrap _ _ (U.addr l ipc.address ipc.mask))
        (add_addresses-Keeps l (next_gateways ipc.gateway g) ips)

  settle_v6-Keeps : (n : Bytes) (g : Option Ip) → Keeps U.view (settle_v6 W n g)
  settle_v6-Keeps n none = search keeps_rules
  settle_v6-Keeps n (some g) = Keeps-then _ _ (Keeps-ignore _ (U.settle n 10)) (Keeps-pure tt)

  add_routes-Keeps :
      (l : Link) (g : Option Ip × Option Ip) (rs : List ResultRoute)
      → Keeps U.view (add_routes W l g rs)
  unfolding add_routes
  add_routes-Keeps l g [] = search keeps_rules
  add_routes-Keeps l g (r ∷ rs) =
      Keeps-then _ _ (Keeps-wrap _ _ (U.ecmp _)) (add_routes-Keeps l g rs)

  configure_link-Keeps : (n : Bytes) (res : CniResult) → Keeps U.view (configure_link W n res)
  configure_link-Keeps n res =
      search
        (keeps_rules, U.by_name, U.set_up, add_addresses-Keeps, settle_v6-Keeps, add_routes-Keeps)
        depth 14

  by_interfaces :
      (n : Bytes) (is : List Interface) (res : CniResult)
      → Keeps U.view (configure_iface W n (record res { interfaces = is }))
  unfolding configure_iface
  by_interfaces n [] res = search keeps_rules
  by_interfaces n (i ∷ is) res = configure_link-Keeps n (record res { interfaces = i ∷ is })

  pub configure_iface-Keeps : (n : Bytes) (res : CniResult) → Keeps U.view (configure_iface W n res)
  configure_iface-Keeps n res = by_interfaces n res.interfaces res
