-- ===== src/Kernel.antt =====
-- The host that the plugin acts on: links, addresses and routes through `netlink`, shells, network
-- namespaces, and the address plugin that `invoke` starts. None of it is the repository's code, so
-- all of it is a parameter.
pub mod Untouched
use my_cni.Prelude.{
  ℕ, ◌+◌, ◌-◌, ◌/◌, ◌%◌, Bool, true, false, List, [], ◌∷◌, ◌++◌, Option, none, some, ltb, leb, ◌==◌,
  if◌then◌else◌,
}
use my_cni.Text.{Bytes, codes, join}
use my_cni.Net.{Ip, Mask, IpNet, Notation6, v4, v6, to4, masked, ip_string, itoa}
use my_cni.Exec.{Exec, Error, Result, ok, err, panic, hang}
use my_cni.Bpf.{Ebpf}
use my_cni.Tc.{Shell}
use my_cni.Allocator.{IpConfig}

-- The type of a link that the program asks for.
pub data LinkType : Type 0 where
  veth vxlan other : LinkType

-- The attributes of a link that the program reads.
pub record Link : Type 0 where
  pub kind : LinkType
  pub name : Bytes
  pub index : ℕ
  pub mtu : ℕ
  pub hardware_addr : Bytes
  pub parent_index : ℕ

-- What `netlink.LinkAdd` is given.
pub data NewLink : Type 0 where
  new_vxlan : (name : Bytes) → (mtu vxlan_id vtep_dev_index ttl : ℕ) → NewLink
  new_veth : (name peer : Bytes) → (mtu peer_namespace : ℕ) → (mac : Option Bytes) → NewLink

pub data Scope : Type 0 where
  universe host link : Scope

-- `netlink.Route`. A nil address inside the destination is `none`.
pub record Route : Type 0 where
  pub link_index : ℕ
  pub scope : Scope
  pub dst : Option Ip × Mask
  pub gw : Option Ip

-- `types.Route` in a result.
pub record ResultRoute : Type 0 where
  pub dst : IpNet
  pub gw : Option Ip

-- `current.Interface`.
pub record Interface : Type 0 where
  pub name : Bytes
  pub mac : Bytes
  pub sandbox : Bytes

-- `current.Result`.
pub record CniResult : Type 0 where
  pub interfaces : List Interface
  pub ips : List IpConfig
  pub routes : List ResultRoute

-- A closure also changes the variables around it: its state has them in front.
pub record World : Type 1 where
  pub bpf : Ebpf
  pub link_by_name : Bytes → Exec bpf.State Link
  pub link_add : NewLink → Exec bpf.State (Unit {0})
  pub link_del : Bytes → Exec bpf.State (Unit {0})
  pub link_set_up : Link → Exec bpf.State (Unit {0})
  pub link_set_name : Link → Bytes → Exec bpf.State (Unit {0})
  pub addr_list : Link → Exec bpf.State (List IpNet)
  pub addr_add : Link → Option Ip → Mask → Exec bpf.State (Unit {0})
  pub route_add : Route → Exec bpf.State (Unit {0})
  pub route_add_ecmp : Route → Exec bpf.State (Unit {0})
  pub route_del : Route → Exec bpf.State (Unit {0})
  pub interface_by_name : Bytes → Exec bpf.State ℕ
  pub parse_mac : Bytes → Result Bytes
  pub random : ℕ → Exec bpf.State Bytes
  pub sysctl : Bytes → Bytes → Exec bpf.State Bytes
  pub new_ethtool : Exec bpf.State (Unit {0})
  pub close_ethtool : Exec bpf.State (Unit {0})
  pub peer_stat : Bytes → Exec bpf.State (Option ℕ)
  pub settle_addresses : Bytes → ℕ → Exec bpf.State (Unit {0})
  pub output : Bytes → bpf.State → (Bytes × Option Error) × bpf.State
  pub Ns : Type 0
  pub get_ns : Bytes → Exec bpf.State Ns
  pub close_ns : Ns → Exec bpf.State (Unit {0})
  pub ns_path : Ns → Bytes
  pub ns_fd : Ns → ℕ
  pub do_in :
      {V : Type 0} → Ns → (Ns → Exec (V × bpf.State) (Unit {0})) → Exec (V × bpf.State) (Unit {0})
  pub with_ns_path :
      {V : Type 0}
      → Bytes
      → (Ns → Exec (V × bpf.State) (Unit {0}))
      → Exec (V × bpf.State) (Unit {0})
  pub Reply : Type 0
  pub delegate_add : Bytes → Bytes → Exec bpf.State Reply
  pub new_result : Reply → Result CniResult
  pub delegate_check : Bytes → Bytes → Exec bpf.State (Unit {0})
  pub delegate_del : Bytes → Bytes → Exec bpf.State (Unit {0})
  pub print_result : CniResult → Bytes → Exec bpf.State (Unit {0})

-- The shell of the host.
abbrev pub shell : World → Shell
shell W = record { State = W.bpf.State; output = W.output }

module _ {S V A : Type 0} where
  abbrev beside : V → Result A × S → Result A × (V × S)
  beside v (r, s) = (r, (v, s))

  -- A call inside a closure: the variables stay.
  abbrev pub inside : Exec S A → Exec (V × S) A
  inside m (v, s) = beside v (m s)

module _ {S V : Type 0} where
  -- An assignment to the variables.
  abbrev pub assign : V → Exec (V × S) (Unit {0})
  assign v (w, s) = (ok tt, (v, s))

  abbrev values : Result (Unit {0}) × (V × S) → Result V × S
  values (ok u, (v, s)) = (ok v, s)
  values (err e, (v, s)) = (err e, s)
  values (panic, (v, s)) = (panic, s)
  values (hang, (v, s)) = (hang, s)

  -- The call of a closure whose variables are `v` at first, in front of `if err != nil { return err }`.
  abbrev pub scoped : V → Exec (V × S) (Unit {0}) → Exec S V
  scoped v m s = values (m (v, s))

  abbrev outcome : Result (Unit {0}) × (V × S) → Result (Option Error × V) × S
  outcome (ok u, (v, s)) = (ok (none, v), s)
  outcome (err e, (v, s)) = (ok (some e, v), s)
  outcome (panic, (v, s)) = (panic, s)
  outcome (hang, (v, s)) = (hang, s)

  -- The call of a closure whose error is looked at later.
  abbrev pub attempt : V → Exec (V × S) (Unit {0}) → Exec S (Option Error × V)
  attempt v m s = outcome (m (v, s))
