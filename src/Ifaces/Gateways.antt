-- ===== src/Ifaces/Gateways.antt =====
-- Which gateway a route gets, and in which order a link is configured.
use my_cni.Prelude.{
  ◌≡◌, refl, sym, ◌∙◌, ap, Bool, not, List, [], ◌∷◌, Option, none, some, if◌then◌else◌, fun_ext,
  Bool-cases, inl, inr,
}
use my_cni.Text.{Bytes}
use my_cni.Net.{Ip}
use my_cni.Exec.{Exec, message, pure, raise, wrap, ignore, ◌>>=◌, ◌>>◌}
use my_cni.Exec.Laws.{bind_assoc}
use my_cni.Allocator.{IpConfig}
use my_cni.Kernel.{World, Link, ResultRoute, CniResult, Interface}
use my_cni.Ifaces.{
  is_v4, set_if_nil, next_gateways, gateway_of, add_addresses, settle_v6, route_by, add_routes,
  configure_iface,
}

abbrev prefer : (Ip → Bool) → Option Ip → Option Ip → Option Ip
prefer family none later = later
prefer family (some gw) later = if family gw then some gw else later

-- The first gateway of a family among the configurations; a nil gateway is of neither.
pub first_gateway : (Ip → Bool) → List IpConfig → Option Ip
first_gateway family [] = none
first_gateway family (ipc ∷ ips) = prefer family ipc.gateway (first_gateway family ips)

abbrev v4_family : Ip → Bool
v4_family ip = is_v4 (some ip)

abbrev v6_family : Ip → Bool
v6_family ip = not (is_v4 (some ip))

-- The gateway of a route: its own, or else the first of its destination's family.
pub chosen : List IpConfig → ResultRoute → Option Ip
unfolding first_gateway
chosen ips r =
    if is_v4 (some r.dst.ip)
    then set_if_nil r.gw (first_gateway v4_family ips)
    else set_if_nil r.gw (first_gateway v6_family ips)

-- An action for each element, up to the first error.
pub for_each : {S A : Type 0} → (A → Exec S (Unit {0})) → List A → Exec S (Unit {0})
for_each act [] = pure tt
for_each act (x ∷ xs) = act x >> for_each act xs

module _ (W : World) where
  -- The wait, where there is an IPv6 gateway.
  pub wait_for : Option Ip → Bytes → Exec W.bpf.State (Unit {0})
  wait_for none if_name = pure tt
  wait_for (some gw) if_name = W.settle_addresses if_name 10

  -- All addresses, then the link goes up, then the wait, whose error does not end it, then all routes.
  pub in_order : Bytes → CniResult → Exec W.bpf.State (Unit {0})
  unfolding chosen for_each first_gateway wait_for
  in_order if_name res = do
    link ← wrap "failed to lookup %q: %v" (W.link_by_name if_name)
    for_each
        (λ (ipc : IpConfig).
          wrap "failed to add IP addr %v to %q: %v" (W.addr_add link ipc.address ipc.mask))
        res.ips
    wrap "failed to set %q UP: %v" (W.link_set_up link)
    ignore (wait_for (first_gateway v6_family res.ips) if_name)
    for_each
        (λ (r : ResultRoute).
          wrap "failed to add route '%v via %v dev %v': %v"
            (W.route_add_ecmp (route_by W link (chosen res.ips r) r)))
        res.routes

  pub reference : Bytes → CniResult → Exec W.bpf.State (Unit {0})
  unfolding in_order
  reference if_name res = elim res.interfaces [
    | [] ↦ raise (message "no interfaces to configure")
    | i ∷ is ↦ in_order if_name res
  ]

-- The gateways behind the loop that began with `g`.
merged : Option Ip × Option Ip → List IpConfig → Option Ip × Option Ip
unfolding first_gateway
merged g ips =
    (set_if_nil g.0 (first_gateway v4_family ips), set_if_nil g.1 (first_gateway v6_family ips))

merged-none :
    (ips : List IpConfig)
    → merged (none, none) ips ≡ (first_gateway v4_family ips, first_gateway v6_family ips)
unfolding merged
merged-none ips = refl

set_if_nil_nil : (g : Option Ip) → set_if_nil g none ≡ g
set_if_nil_nil none = refl
set_if_nil_nil (some ip) = refl

merged-nil : (g : Option Ip × Option Ip) → merged g [] ≡ g
unfolding merged
merged-nil (g4, g6) = rw (set_if_nil_nil g4, set_if_nil_nil g6) refl

merged-cons :
    (g : Option Ip × Option Ip) (ipc : IpConfig) (ips : List IpConfig)
    → merged (next_gateways ipc.gateway g) ips ≡ merged g (ipc ∷ ips)
unfolding merged
merged-cons (a, b) ipc ips =
    step a b ipc.gateway (first_gateway v4_family ips) (first_gateway v6_family ips)
  where
    step :
        (a b gw x y : Option Ip)
        → ◌≡◌ {A = Option Ip × Option Ip}
            (set_if_nil (next_gateways gw (a, b)).0 x, set_if_nil (next_gateways gw (a, b)).1 y)
            (set_if_nil a (prefer v4_family gw x), set_if_nil b (prefer v6_family gw y))
    step a none none x y = refl
    step a (some b) none x y = refl
    step none none (some g) x y = elim (Bool-cases (is_v4 (some g))) [ inl e ↦ rw e | inr e ↦ rw e ]
    step none (some b) (some g) x y = elim (Bool-cases (is_v4 (some g))) [
      | inl e ↦ rw e
      | inr e ↦ rw e
    ]
    step (some a) none (some g) x y = elim (Bool-cases (is_v4 (some g))) [
      | inl e ↦ rw e
      | inr e ↦ rw e
    ]
    step (some a) (some b) (some g) x y = elim (Bool-cases (is_v4 (some g))) [
      | inl e ↦ rw e
      | inr e ↦ rw e
    ]

chosen_lem :
    (ips : List IpConfig) (r : ResultRoute)
    → gateway_of (first_gateway v4_family ips, first_gateway v6_family ips) r ≡ chosen ips r
unfolding chosen
chosen_lem ips r = elim (Bool-cases (is_v4 (some r.dst.ip))) [ inl e ↦ rw e | inr e ↦ rw e ]

module _ (W : World) (link : Link) where
  abbrev put_address : IpConfig → Exec W.bpf.State (Unit {0})
  put_address ipc = wrap "failed to add IP addr %v to %q: %v" (W.addr_add link ipc.address ipc.mask)

  add_addresses_lem :
      (g : Option Ip × Option Ip) (ips : List IpConfig)
      → add_addresses W link g ips ≡ (for_each put_address ips >> pure (merged g ips))
  unfolding add_addresses for_each
  add_addresses_lem g [] = ap pure (sym (merged-nil g))
  add_addresses_lem g (ipc ∷ ips) =
      ap (λ k. put_address ipc >> k)
        (add_addresses_lem (next_gateways ipc.gateway g) ips
          ∙ ap (λ m. for_each put_address ips >> pure m) (merged-cons g ipc ips))
      ∙ sym (bind_assoc (put_address ipc) _ _)

  abbrev put_route : (ResultRoute → Option Ip) → ResultRoute → Exec W.bpf.State (Unit {0})
  put_route gw r =
      wrap "failed to add route '%v via %v dev %v': %v"
        (W.route_add_ecmp (route_by W link (gw r) r))

  add_routes_lem :
      (ips : List IpConfig) (rs : List ResultRoute)
      → add_routes W link (first_gateway v4_family ips, first_gateway v6_family ips) rs
        ≡ for_each (put_route (chosen ips)) rs
  unfolding add_routes for_each
  add_routes_lem ips [] = refl
  add_routes_lem ips (r ∷ rs) =
      ap
        (λ gw.
          put_route (λ _. gw) r
          >> add_routes W link (first_gateway v4_family ips, first_gateway v6_family ips) rs)
        (chosen_lem ips r)
      ∙ ap (λ k. put_route (chosen ips) r >> k) (add_routes_lem ips rs)

module _ (W : World) where
  -- What follows the addresses.
  abbrev rest_of : Bytes → CniResult → Link → Option Ip × Option Ip → Exec W.bpf.State (Unit {0})
  rest_of if_name res link gateways = do
    wrap "failed to set %q UP: %v" (W.link_set_up link)
    settle_v6 W if_name gateways.1
    add_routes W link gateways res.routes

  settled :
      (if_name : Bytes) (gw : Option Ip) (k : Exec W.bpf.State (Unit {0}))
      → (settle_v6 W if_name gw >> k) ≡ (ignore (wait_for W gw if_name) >> k)
  unfolding wait_for
  settled if_name none k = refl
  settled if_name (some gw) k = bind_assoc (ignore (W.settle_addresses if_name 10)) _ _

  for_link :
      (if_name : Bytes) (res : CniResult) (link : Link)
      → (add_addresses W link (none, none) res.ips >>= rest_of if_name res link) ≡ (
          for_each (put_address W link) res.ips
          >> (wrap "failed to set %q UP: %v" (W.link_set_up link)
              >> (ignore (wait_for W (first_gateway v6_family res.ips) if_name)
                  >> for_each (put_route W link (chosen res.ips)) res.routes)))
  for_link if_name res link =
      ap (λ m. m >>= rest_of if_name res link)
        (add_addresses_lem W link (none, none) res.ips
          ∙ ap (λ m. for_each (put_address W link) res.ips >> pure m) (merged-none res.ips))
      ∙ bind_assoc (for_each (put_address W link) res.ips) _ _
      ∙ ap
          (λ k.
            for_each (put_address W link) res.ips
            >> (wrap "failed to set %q UP: %v" (W.link_set_up link)
                >> (settle_v6 W if_name (first_gateway v6_family res.ips) >> k)))
          (add_routes_lem W link res.ips res.routes)
      ∙ ap
          (λ k.
            for_each (put_address W link) res.ips
            >> (wrap "failed to set %q UP: %v" (W.link_set_up link) >> k))
          (settled if_name (first_gateway v6_family res.ips) _)

  -- The loop that carries the gateways along does what the reference does, which reads them off the
  -- whole list: a route without a gateway gets the first of its family among all configurations, a
  -- nil gateway counts for neither family, and the wait is made exactly when a gateway is IPv6, whose
  -- error does not keep the routes from being added.
  pub configure_iface-eq-reference :
      (if_name : Bytes) (res : CniResult) → configure_iface W if_name res ≡ reference W if_name res
  unfolding configure_iface reference
  configure_iface-eq-reference if_name res = by_interfaces res.interfaces
    where
      by_interfaces :
          (is : List Interface)
          → configure_iface W if_name (record res { interfaces = is })
            ≡ reference W if_name (record res { interfaces = is })
      by_interfaces [] = refl
      by_interfaces (i ∷ is) =
          ap (λ k. wrap "failed to lookup %q: %v" (W.link_by_name if_name) >>= k)
            (fun_ext (for_link if_name res))
