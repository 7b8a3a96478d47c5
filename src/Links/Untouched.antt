-- ===== src/Links/Untouched.antt =====
-- The work on links leaves the rest of the host alone.
use my_cni.Prelude.{ℕ, zero, suc, Option, none, some, [], ◌∷◌, true, false, Bool}
use my_cni.Text.{Bytes}
use my_cni.Exec.{Exec, Error, pure, ◌>>=◌}
use my_cni.Exec.Keeps.{Keeps, Keeps-pure, Keeps-bind, Keeps-rescue, Keeps-then, keeps_rules}
use my_cni.Kernel.{World, Link}
use my_cni.Kernel.Untouched.{
  Untouched, Keeps-assign, Keeps-wrap_inside, Keeps-ignore_inside, untouched_rules, runs-Keeps,
}
use my_cni.Links.{
  make_veth_pair, random_veth_name, peer_exists, mac_of, peer_name_of, retry, retry_if, veth_rounds,
  make_veth, raise_host, need, setup_veth_with_name, setup_veth, make_vxlan_by_shell, unless_there,
  setup_vxlan,
}

module _ {W : World} (U : Untouched W) where
  peer_exists-Keeps : (n : Bytes) → Keeps U.view (peer_exists W n)
  unfolding peer_exists
  peer_exists-Keeps n = search (keeps_rules, U.by_name)

  random_veth_name-Keeps : Keeps U.view (random_veth_name W)
  unfolding random_veth_name
  random_veth_name-Keeps = search (keeps_rules, U.random)

  mac_of-Keeps : (m : Bytes) → Keeps U.view (mac_of W m)
  mac_of-Keeps [] = search keeps_rules
  mac_of-Keeps (c ∷ s) = search keeps_rules

  make_veth_pair-Keeps :
      (n p : Bytes) (mtu : ℕ) (m : Bytes) (ns : W.Ns) → Keeps U.view (make_veth_pair W n p mtu m ns)
  unfolding make_veth_pair
  make_veth_pair-Keeps n p mtu m ns =
      search (keeps_rules, mac_of-Keeps, U.add, U.by_name, U.del) depth 12

  peer_name_of-Keeps : (p : Bytes) → Keeps U.view (peer_name_of W p)
  peer_name_of-Keeps [] = random_veth_name-Keeps
  peer_name_of-Keeps (c ∷ s) = search keeps_rules

  retry_if-Keeps : (b : Bool) → Keeps U.view (retry_if W b)
  retry_if-Keeps true = search keeps_rules
  retry_if-Keeps false = search keeps_rules

  retry-Keeps : (v p : Bytes) (e : Error) → Keeps U.view (retry W v p e)
  retry-Keeps v p e = search (keeps_rules, peer_exists-Keeps, retry_if-Keeps)

  veth_rounds-Keeps :
      (rounds : ℕ) (n v : Bytes) (mtu : ℕ) (m : Bytes) (ns : W.Ns)
      → Keeps U.view (veth_rounds W rounds n v mtu m ns)
  unfolding veth_rounds
  veth_rounds-Keeps zero n v mtu m ns = search keeps_rules
  veth_rounds-Keeps (suc rounds) n v mtu m ns = Keeps-bind _ _ (peer_name_of-Keeps v) (λ p.
      Keeps-rescue (make_veth_pair W n p mtu m ns >>= λ link. pure (p, link)) _
        (Keeps-bind _ _ (make_veth_pair-Keeps n p mtu m ns) (λ l. Keeps-pure _))
        (λ e. Keeps-then _ _ (retry-Keeps v p e) (veth_rounds-Keeps rounds n v mtu m ns)))

  raise_host-Keeps :
      (n : Bytes) → Keeps (λ (p : Option Link × W.bpf.State). U.view p.1) (raise_host W n)
  raise_host-Keeps n = Keeps-bind _ _ (Keeps-wrap_inside _ (W.link_by_name n) (U.by_name n)) (λ l.
      Keeps-then _ _ (Keeps-assign U.view (some l)) (
        Keeps-then _ _ (Keeps-wrap_inside _ (W.link_set_up l) (U.set_up l))
          (Keeps-then _ _ (Keeps-ignore_inside (W.sysctl _ _) (U.sysctl _ _)) (Keeps-pure tt))))

  need-Keeps : (o : Option Link) → Keeps U.view (need W o)
  need-Keeps none = search keeps_rules
  need-Keeps (some l) = search keeps_rules

  pub setup_veth-Keeps :
      (n : Bytes) (mtu : ℕ) (m : Bytes) (ns : W.Ns) → Keeps U.view (setup_veth W n mtu m ns)
  unfolding setup_veth setup_veth_with_name make_veth
  setup_veth-Keeps n mtu m ns =
      search (untouched_rules, veth_rounds-Keeps, raise_host-Keeps, need-Keeps, U.do_in)

  make_vxlan_by_shell-Keeps : (n : Bytes) → Keeps U.view (make_vxlan_by_shell W n)
  make_vxlan_by_shell-Keeps n = search (keeps_rules, runs-Keeps U, U.by_name, U.set_up) depth 14

  unless_there-Keeps :
      (o : Option Link) (m : Exec W.bpf.State Link)
      → Keeps U.view m
      → Keeps U.view (unless_there W o m)
  unless_there-Keeps none m k = k
  unless_there-Keeps (some l) m k = search keeps_rules

  pub setup_vxlan-Keeps : (n : Bytes) (mtu : ℕ) → Keeps U.view (setup_vxlan W n mtu)
  unfolding setup_vxlan
  setup_vxlan-Keeps n mtu =
      search (keeps_rules, unless_there-Keeps, make_vxlan_by_shell-Keeps, U.by_name)
