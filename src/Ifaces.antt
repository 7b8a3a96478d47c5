-- ===== src/Ifaces.antt =====
-- pkg/ipam/ipam_linux.go and pkg/ipam/ipam.go: a result of the address plugin is put on a link, and the
-- address plugin is started.
pub mod Gateways
pub mod Untouched
use my_cni.Prelude.{ℕ, Bool, true, false, not, List, [], ◌∷◌, Option, none, some, if◌then◌else◌}
use my_cni.Text.{Bytes}
use my_cni.Net.{Ip, Mask, to4}
use my_cni.Exec.{Exec, Error, message, pure, raise, wrap, ignore, ◌>>=◌, ◌>>◌}
use my_cni.Allocator.{IpConfig}
use my_cni.Kernel.{World, Link, Route, universe, ResultRoute, CniResult}

-- `ip.To4() != nil`.
abbrev pub is_v4 : Option Ip → Bool
is_v4 none = false
is_v4 (some ip) = elim (to4 ip) [ none ↦ false | some n ↦ true ]

abbrev pub set_if_nil : Option Ip → Option Ip → Option Ip
set_if_nil none new = new
set_if_nil (some old) new = some old

-- `v4gw` and `v6gw` after one more configuration.
abbrev pub next_gateways : Option Ip → Option Ip × Option Ip → Option Ip × Option Ip
next_gateways gw (v4gw, v6gw) =
    if is_v4 gw then (set_if_nil v4gw gw, v6gw) else (v4gw, set_if_nil v6gw gw)

abbrev pub gateway_of : Option Ip × Option Ip → ResultRoute → Option Ip
gateway_of (v4gw, v6gw) r = set_if_nil r.gw (if is_v4 (some r.dst.ip) then v4gw else v6gw)

module _ (W : World) where
  abbrev St : Type 0
  St = W.bpf.State

  -- The loop over the addresses, with the gateways found so far.
  unfoldable pub add_addresses :
      Link → Option Ip × Option Ip → List IpConfig → Exec St (Option Ip × Option Ip)
  add_addresses link gateways [] = pure gateways
  add_addresses link gateways (ipc ∷ ips) = do
    wrap "failed to add IP addr %v to %q: %v" (W.addr_add link ipc.address ipc.mask)
    add_addresses link (next_gateways ipc.gateway gateways) ips

  -- The error of the wait is dropped.
  abbrev pub settle_v6 : Bytes → Option Ip → Exec St (Unit {0})
  settle_v6 if_name none = pure tt
  settle_v6 if_name (some gw) = do ignore (W.settle_addresses if_name 10); pure tt

  abbrev pub route_by : Link → Option Ip → ResultRoute → Route
  route_by link gw r = record {
    link_index = link.index;
    scope = universe;
    dst = (some r.dst.ip, r.dst.mask);
    gw = gw;
  }

  unfoldable pub add_routes : Link → Option Ip × Option Ip → List ResultRoute → Exec St (Unit {0})
  add_routes link gateways [] = pure tt
  add_routes link gateways (r ∷ rs) = do
    wrap "failed to add route '%v via %v dev %v': %v"
        (W.route_add_ecmp (route_by link (gateway_of gateways r) r))
    add_routes link gateways rs

  abbrev pub configure_link : Bytes → CniResult → Exec St (Unit {0})
  configure_link if_name res = do
    link ← wrap "failed to lookup %q: %v" (W.link_by_name if_name)
    gateways ← add_addresses link (none, none) res.ips
    wrap "failed to set %q UP: %v" (W.link_set_up link)
    settle_v6 if_name gateways.1
    add_routes link gateways res.routes

  unfoldable pub configure_iface : Bytes → CniResult → Exec St (Unit {0})
  configure_iface if_name res = elim res.interfaces [
    | [] ↦ raise (message "no interfaces to configure")
    | i ∷ interfaces ↦ configure_link if_name res
  ]

  unfoldable pub exec_add : Bytes → Bytes → Exec St W.Reply
  exec_add plugin netconf = W.delegate_add plugin netconf

  unfoldable pub exec_check : Bytes → Bytes → Exec St (Unit {0})
  exec_check plugin netconf = W.delegate_check plugin netconf

  unfoldable pub exec_del : Bytes → Bytes → Exec St (Unit {0})
  exec_del plugin netconf = W.delegate_del plugin netconf
