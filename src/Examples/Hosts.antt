-- ===== src/Examples/Hosts.antt =====
-- Examples of the subnets of nodes: the cluster's pool, and the list of a subnet's addresses.
use my_cni.Prelude.{
  true, ◌&&◌, map, ◌^◌, ◌-◌, ap, ◌≡◌, refl, ◌∙◌, List, [], ◌∷◌, arith, if◌then◌else◌,
}
use my_cni.Text.{Bytes, codes, split, join, same}
use my_cni.Net.{dotted, itoa}
use my_cni.Exec.{ok, panic, hang}
use my_cni.Utils.Subnet.{cidr_text, entry, usable, low, list_ipv4_addr_lem, list_ipv4_addr-hang}
use my_cni.Utils.{list_ipv4_addr, get_gateway, get_valid_ips}
use my_cni.Etcd.{WrappedClient, host_path, host_pool_path, host_gw_path, ip_pool_path}
use my_cni.Etcd.Memory.{memory, memory-IsLawful}
use my_cni.Etcd.Laws.{stored, Up}
use my_cni.Allocator.{allocate_ip2host}
use my_cni.Allocator.Hosts.{allocate-takes_subnet, allocate-panics}
use my_cni.InitPool.{init_pool, random_generate_ip_cidrs}
use my_cni.InitPool.Fill.{init_pool-fills}
use my_cni.Examples.{client_of, no_v6, node}

-- A cluster's pool of two subnets, before and after it is used up.
abbrev cluster_pool : WrappedClient memory
cluster_pool = client_of ((ip_pool_path, codes "10.1.1.0/29;10.1.2.0/29") ∷ [])

abbrev no_pool : WrappedClient memory
no_pool = client_of []

cluster-Up : Up memory-IsLawful cluster_pool
unfolding memory-IsLawful
cluster-Up = refl

no_pool-Up : Up memory-IsLawful no_pool
unfolding memory-IsLawful
no_pool-Up = refl

no_host : stored memory-IsLawful cluster_pool (host_path node) ≡ []
unfolding memory-IsLawful host_path ip_pool_path same
no_host = refl

cluster-entries :
    split b';' (stored memory-IsLawful cluster_pool ip_pool_path)
    ≡ codes "10.1.1.0/29" ∷ codes "10.1.2.0/29" ∷ []
unfolding memory-IsLawful ip_pool_path same split
cluster-entries = refl

gateway_text : get_gateway (codes "10.1.1.0/29") ≡ ok (codes "10.1.1.1/29")
unfolding get_gateway split join
gateway_text = refl

abbrev valid_ips : List Bytes
valid_ips =
    codes "10.1.1.2/29"
    ∷ codes "10.1.1.3/29"
    ∷ codes "10.1.1.4/29"
    ∷ codes "10.1.1.5/29"
    ∷ codes "10.1.1.6/29"
    ∷ codes "10.1.1.7/29"
    ∷ []

subnet-text : cidr_text 167837952 29 ≡ codes "10.1.1.0/29"
unfolding dotted itoa join
subnet-text = refl

list-texts : map (entry (itoa 29)) (usable (low 167837952 29) (2 ^ (32 - 29))) ≡ valid_ips
unfolding dotted itoa join
list-texts = refl

valid_texts : get_valid_ips (codes "10.1.1.0/29") ≡ ok valid_ips
unfolding get_valid_ips
valid_texts =
    rw (← subnet-text)
      (list_ipv4_addr_lem 167837952 29 (omega arith) (omega arith) (omega arith) ∙ ap ok list-texts)

allocate-takes_subnet_example :
    ((allocate_ip2host memory node cluster_pool).0 ≡ ok (codes "10.1.1.0/29"))
    × ((j : Bytes)
        → stored memory-IsLawful (allocate_ip2host memory node cluster_pool).1 j ≡ (
            if same (host_pool_path node) j
            then join b';' valid_ips
            else if same (host_gw_path node) j
            then codes "10.1.1.1/29"
            else if same (host_path node) j
            then codes "10.1.1.0/29"
            else if same ip_pool_path j
            then join b';' (codes "10.1.2.0/29" ∷ [])
            else stored memory-IsLawful cluster_pool j))
allocate-takes_subnet_example =
    allocate-takes_subnet memory-IsLawful node cluster_pool cluster-Up (codes "10.1.1.0/29")
      (codes "10.1.2.0/29" ∷ []) no_host cluster-entries (codes "10.1.1.1/29") valid_ips
      gateway_text valid_texts

no_pool_host : stored memory-IsLawful no_pool (host_path node) ≡ []
unfolding memory-IsLawful
no_pool_host = refl

no_pool_pool : stored memory-IsLawful no_pool ip_pool_path ≡ []
unfolding memory-IsLawful
no_pool_pool = refl

allocate-panics_example : (allocate_ip2host memory node no_pool).0 ≡ panic
allocate-panics_example =
    allocate-panics memory-IsLawful node no_pool no_pool-Up no_pool_host no_pool_pool

-- The addresses of 10.1.1.0/28, and of a subnet at the end of the address space.
list_ipv4_addr_example :
    list_ipv4_addr (cidr_text 167837952 28)
    ≡ ok (map (entry (itoa 28)) (usable (low 167837952 28) (2 ^ (32 - 28))))
list_ipv4_addr_example = list_ipv4_addr_lem 167837952 28 (omega arith) (omega arith) (omega arith)

list_ipv4_addr-hang_example : list_ipv4_addr (cidr_text 4294967041 24) ≡ hang
list_ipv4_addr-hang_example =
    list_ipv4_addr-hang 4294967041 24 (omega arith) (omega arith) (omega arith)

init_pool-fills_example :
    ((init_pool memory no_pool).0 ≡ ok true)
    × ((j : Bytes)
        → stored memory-IsLawful (init_pool memory no_pool).1 j ≡ (
            if same ip_pool_path j && same (stored memory-IsLawful no_pool ip_pool_path) []
            then join b';' random_generate_ip_cidrs
            else stored memory-IsLawful no_pool j))
init_pool-fills_example = init_pool-fills memory-IsLawful no_pool no_pool-Up
