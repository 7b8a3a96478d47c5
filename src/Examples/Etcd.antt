-- ===== src/Examples/Etcd.antt =====
-- Examples of the etcd allocator: a node `n` with the subnet 10.1.1.0/29.
use my_cni.Prelude.{
  ◌++◌, ◌≡◌, ◌≢◌, refl, sym, ◌∙◌, subst, [], ◌∷◌, none, some, arith, true, false, if◌then◌else◌,
}
use my_cni.Text.{Bytes, codes, split, join, same, Lacks}
use my_cni.Net.{
  Ip, v4, IpNet, network, parse_cidr, parse_ip, cut_slash, octet, dtoi, masked, parse_dotted, kind,
}
use my_cni.Exec.{ok}
use my_cni.Etcd.{WrappedClient, host_path, host_pool_path, host_gw_path, net_device_path}
use my_cni.Etcd.Memory.{memory, memory-IsLawful}
use my_cni.Etcd.Laws.{stored, Up}
use my_cni.Etcd.Paths.{device_id}
use my_cni.Allocator.{allocate_ip2pod, release_pod_ip, first}
use my_cni.Allocator.Answers.{HasSubnet, allocate-takes_first, answer, device, pool}
use my_cni.Allocator.Answers.{allocate-used_up}
use my_cni.Allocator.Sequences.{allocate_twice, release-returns}
use my_cni.Allocator.Refill.{allocate-after_release}
use my_cni.Examples.{client_of, no_v6, node, with_pool}

abbrev pub cid : Bytes
cid = codes "c"

abbrev pub eth : Bytes
eth = codes "e"

abbrev pub two : WrappedClient memory
two = with_pool (codes "10.1.1.2/29;10.1.1.3/29")

abbrev pub subnet : Ip × IpNet
subnet = (v4 167837952, network (v4 167837952) 29)

pub two-HasSubnet : HasSubnet memory-IsLawful node cid eth two subnet
unfolding memory-IsLawful host_path host_pool_path host_gw_path parse_cidr parse_ip cut_slash octet
    dtoi masked split parse_dotted kind same
two-HasSubnet = record {
  up = refl;
  host_set = λ e. subst (λ (t : Bytes). elim t [ [] ↦ ⊥ | a ∷ b ↦ Unit {0} ]) e tt;
  host_parses = refl;
}

pub dev_free : stored memory-IsLawful two (net_device_path node (device_id cid eth)) ≡ []
unfolding memory-IsLawful host_path host_pool_path host_gw_path net_device_path same
dev_free = refl

pub two-entries :
    split b';' (stored memory-IsLawful two (host_pool_path node))
    ≡ codes "10.1.1.2/29" ∷ codes "10.1.1.3/29" ∷ []
unfolding memory-IsLawful host_path host_pool_path host_gw_path split same
two-entries = refl

allocate-takes_first_example :
    ((allocate_ip2pod memory node cid eth two).0
      ≡ ok (answer memory-IsLawful node cid eth two subnet (codes "10.1.1.2/29")))
    × ((j : Bytes)
        → stored memory-IsLawful (allocate_ip2pod memory node cid eth two).1 j ≡ (
            if same (device memory-IsLawful node cid eth two) j
            then codes "10.1.1.2/29"
            else if same (pool memory-IsLawful node cid eth two) j
            then join b';' (codes "10.1.1.3/29" ∷ [])
            else stored memory-IsLawful two j))
allocate-takes_first_example =
    allocate-takes_first memory-IsLawful node cid eth two subnet two-HasSubnet (codes "10.1.1.2/29")
      (codes "10.1.1.3/29" ∷ []) dev_free two-entries

two-parses : parse_cidr (codes "10.1.1.2/29") ≡ some (v4 167837954, network (v4 167837954) 29)
unfolding parse_cidr parse_ip cut_slash octet dtoi masked split parse_dotted kind
two-parses = refl

filled : codes "10.1.1.2/29" ≢ []
filled e = subst (λ (t : Bytes). elim t [ [] ↦ ⊥ | a ∷ b ↦ Unit {0} ]) e tt

allocate_twice_example :
    ((allocate_ip2pod memory node cid eth (allocate_ip2pod memory node cid eth two).1).0
      ≡ (allocate_ip2pod memory node cid eth two).0)
    × ((j : Bytes)
        → stored memory-IsLawful
            (allocate_ip2pod memory node cid eth (allocate_ip2pod memory node cid eth two).1).1
            j
          ≡ stored memory-IsLawful (allocate_ip2pod memory node cid eth two).1 j)
allocate_twice_example =
    allocate_twice memory-IsLawful node cid eth two subnet two-HasSubnet (codes "10.1.1.2/29")
      (codes "10.1.1.3/29" ∷ []) dev_free two-entries (v4 167837954, network (v4 167837954) 29)
      filled two-parses

-- A node whose pool is used up, with one device that has an address.
abbrev full : WrappedClient memory
full = client_of (
    (net_device_path node (device_id cid eth), codes "10.1.1.2/29")
    ∷ (host_path node, codes "10.1.1.0/29")
    ∷ (host_gw_path node, codes "10.1.1.1/29")
    ∷ (host_pool_path node, [])
    ∷ [])

abbrev other : Bytes
other = codes "d"

full-HasSubnet : HasSubnet memory-IsLawful node other eth full subnet
unfolding memory-IsLawful host_path host_pool_path host_gw_path net_device_path parse_cidr parse_ip
    cut_slash octet dtoi masked split parse_dotted kind same
full-HasSubnet = record {
  up = refl;
  host_set = λ e. subst (λ (t : Bytes). elim t [ [] ↦ ⊥ | a ∷ b ↦ Unit {0} ]) e tt;
  host_parses = refl;
}

full-held :
    stored memory-IsLawful full (net_device_path node (device_id cid eth)) ≡ codes "10.1.1.2/29"
unfolding memory-IsLawful host_path host_pool_path host_gw_path net_device_path same
full-held = refl

full_free : stored memory-IsLawful full (net_device_path node (device_id other eth)) ≡ []
unfolding memory-IsLawful host_path host_pool_path host_gw_path net_device_path same
full_free = refl

full_pool : stored memory-IsLawful full (host_pool_path node) ≡ []
unfolding memory-IsLawful host_path host_pool_path host_gw_path net_device_path same
full_pool = refl

allocate-used_up_example :
    ((allocate_ip2pod memory node other eth full).0
      ≡ ok (record {
        address = none;
        mask = subnet.1.mask;
        gateway = first (parse_cidr (stored memory-IsLawful full (host_gw_path node)));
        interface = none;
      }))
    × ((j : Bytes)
        → stored memory-IsLawful (allocate_ip2pod memory node other eth full).1 j
          ≡ stored memory-IsLawful full j)
allocate-used_up_example =
    allocate-used_up memory-IsLawful node other eth full subnet full-HasSubnet full_free full_pool

full-clean : Lacks b';' (stored memory-IsLawful full (net_device_path node (device_id cid eth)))
full-clean = rw full-held (omega arith)

full-Up : Up memory-IsLawful full
unfolding memory-IsLawful
full-Up = refl

release-returns_example :
    ((release_pod_ip memory node cid eth full).0 ≡ ok true)
    × (stored memory-IsLawful
          (release_pod_ip memory node cid eth full).1
          (net_device_path node (device_id cid eth))
        ≡ [])
    × (split b';'
          (stored memory-IsLawful (release_pod_ip memory node cid eth full).1 (host_pool_path node))
        ≡ split b';' (stored memory-IsLawful full (host_pool_path node))
          ++ stored memory-IsLawful full (net_device_path node (device_id cid eth)) ∷ [])
    × ((j : Bytes)
        → same (net_device_path node (device_id cid eth)) j ≡ false
        → same (host_pool_path node) j ≡ false
        → stored memory-IsLawful (release_pod_ip memory node cid eth full).1 j
          ≡ stored memory-IsLawful full j)
release-returns_example =
    release-returns memory-IsLawful node cid eth full full-Up (λ e. filled (sym full-held ∙ e))
      full-clean

allocate-after_release_example :
    (allocate_ip2pod memory node other eth (release_pod_ip memory node cid eth full).1).0
    ≡ ok (record {
      address = none;
      mask = subnet.1.mask;
      gateway = first (parse_cidr (stored memory-IsLawful full (host_gw_path node)));
      interface = none;
    })
allocate-after_release_example =
    allocate-after_release memory-IsLawful node cid eth other eth full subnet full-HasSubnet
      (λ e. filled (sym full-held ∙ e)) full-clean full_free full_pool
