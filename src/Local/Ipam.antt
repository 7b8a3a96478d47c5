-- ===== src/Local/Ipam.antt =====
-- plugins/ipam/local/main.go: the address manager over the store. `cip_next` is the `NextIP` of the
-- plugins library.
pub mod Search
pub mod Range
pub mod Safety
pub mod Steps
pub mod Calls
pub mod Owners
use my_cni.Prelude.{
  ℕ, zero, suc, ◌+◌, ◌^◌, Bool, true, false, not, ◌&&◌, List, [], ◌∷◌, Option, none, some,
  if◌then◌else◌,
}
use my_cni.Text.{Bytes, codes}
use my_cni.Net.{Ip, Mask, IpNet, Notation6, parse_cidr, contains, ip_equal}
use my_cni.Exec.{
  Exec, Error, Result, ok, err, panic, hang, ip_overflow, message, caused, pure, raise, lift, wrap,
  deferring, from_option, ◌>>=◌, ◌>>◌,
}
use my_cni.Local.Store.{
  Store, lock_store, unlock_store, rlock_store, runlock_store, load_data, get_ip_by_id, last_ip,
  contain, add, del,
}

pub record Ipam : Type 0 where
  pub subnet : IpNet
  pub gateway : Option Ip

module _ (cip_next : Option Ip → Option Ip) where
  unfoldable pub next_ip : IpNet → Option Ip → Result (Option Ip)
  next_ip subnet ip =
      let next = cip_next ip in if contains subnet next then ok next else err ip_overflow

abbrev with_gateway : IpNet → Result (Option Ip) → Result Ipam
with_gateway subnet (ok gateway) = ok (record { subnet = subnet; gateway = gateway })
with_gateway subnet (err e) = err e
with_gateway subnet r = hang

module _ ⦃n6 : Notation6⦄ where
  -- `Add` behind a free address; its error comes back beside the address.
  abbrev pub take : Bytes → Bytes → Option Ip → Exec Store (Option Ip)
  take id if_name next = do add next id if_name; pure next

-- More than twice the addresses of any subnet.
abbrev pub rounds : ℕ
rounds = 2 ^ 33 + 2

abbrev pub or_gateway : Ipam → Option Ip → Option Ip
or_gateway im none = im.gateway
or_gateway im (some ip) = some ip

module _ (cip_next : Option Ip → Option Ip) ⦃n6 : Notation6⦄ where
  abbrev from_subnet : Option (Ip × IpNet) → Result Ipam
  from_subnet none = err (message "invalid CIDR address")
  from_subnet (some (_, subnet)) = with_gateway subnet (next_ip cip_next subnet (some subnet.ip))

  -- The gateway is the first address of the subnet.
  unfoldable pub new_ipam : Bytes → Result Ipam
  new_ipam subnet_conf = from_subnet (parse_cidr subnet_conf)

  module _ (im : Ipam) (last : Option Ip) (id if_name : Bytes) where
    abbrev is_overflow : Error → Bool
    is_overflow ip_overflow = true
    is_overflow _ = false

    -- The loop of `AllocateIP` from `start`: the addresses behind it, and from the gateway on behind
    -- the end of the subnet, until a free one or the last one. `hang` is the end of the fuel.
    unfoldable pub search_from : ℕ → Option Ip → Exec Store (Option Ip)
    search_from zero start s = (hang, s)
    search_from (suc fuel) start s = elim (next_ip cip_next im.subnet start) [
      | ok next ↦
          let rest = search_from fuel next s in
          if contain next s
          then (if ip_equal next last then (err (message "no available ip"), s) else rest)
          else take id if_name next s
      | err e ↦
          let again = search_from fuel im.gateway s in
          if is_overflow e && not (ip_equal last im.gateway) then again else (err e, s)
      | panic ↦ (panic, s)
      | hang ↦ (hang, s)
    ]

  -- A container that has an address gets it again.
  abbrev pub find_or_search : Ipam → Bytes → Bytes → Option Ip → Exec Store (Option Ip)
  find_or_search im id if_name (some ip) s = (ok (some ip), s)
  find_or_search im id if_name none s =
      let last = or_gateway im (last_ip s) in search_from im last id if_name rounds last s

  unfoldable pub allocate_ip : Ipam → Bytes → Bytes → Exec Store (Option Ip)
  allocate_ip im id if_name = do
    lock_store
    deferring unlock_store
        (do load_data; (λ s. find_or_search im id if_name (get_ip_by_id id s).0 s))

unfoldable pub release_ip : Bytes → Exec Store (Unit {0})
release_ip id = do lock_store; deferring unlock_store (do load_data; del id)

module _ ⦃n6 : Notation6⦄ where
  abbrev found : Option Ip × Bool → Exec Store (Option Ip)
  found (ip, true) = pure ip
  found (ip, false) = raise (message "failed to find container %s ip")

  unfoldable pub check_ip : Bytes → Exec Store (Option Ip)
  check_ip id = do
    rlock_store
    deferring runlock_store (do load_data; (λ s. found (get_ip_by_id id s) s))
