-- ===== src/Examples/Local.antt =====
-- Examples of the local address plugin: the subnet 10.1.1.0/29, and a file with one address in use.
use my_cni.Prelude.{
  ℕ, ◌+◌, ◌^◌, ◌<◌, ◌≡◌, ◌≢◌, refl, ap, true, false, List, [], ◌∷◌, Option, none, some, arith,
}
use my_cni.Text.{Bytes, codes, same}
use my_cni.Net.{Ip, v4, v6, dotted, parse_ip}
use my_cni.Net.Dotted.{parse_ip-dotted}
use my_cni.Exec.{Result, ok}
use my_cni.Utils.Subnet.{cidr_text}
use my_cni.Local.Store.{ContainerNetInfo, Data, saved, Store, no_data, has_key, key_of}
use my_cni.Local.Ipam.{Ipam, new_ipam, search_from, allocate_ip, release_ip, or_gateway}
use my_cni.Local.Ipam.Search.{IsRange, reference, search-eq-reference}
use my_cni.Local.Ipam.Range.{manager, range-IsRange, new_ipam-cidr_text}
use my_cni.Local.Ipam.Safety.{Allocation, allocate_ip-Allocation, StartsAt, changed}
use my_cni.Local.Ipam.Steps.{at, Call, allocate, release, after_calls, without}
use my_cni.Local.Ipam.Calls.{IsSound, Holds, after_calls-Holds, release_ip-erases}
use my_cni.Local.Ipam.Owners.{Has, after_calls-keeps_address}
use my_cni.Local.Host.{
  Host, PluginConf, SubnetConf, CniResult, Args, load_cni_config, parse_plugin_config,
  load_subnet_config, cmd_add,
}
use my_cni.Local.Host.Commands.{Begins, Added, cmd_add-Added}
use my_cni.Examples.{no_v6}

-- The next address; a stand-in for the library's function.
abbrev next : Option Ip → Option Ip
next none = none
next (some (v4 x)) = some (v4 (x + 1))
next (some (v6 x)) = some (v6 (x + 1))

abbrev net : ℕ
net = 167837952

abbrev im : Ipam
im = manager net 29

range-IsRange_example : IsRange next im (net + 1) (net + 7)
range-IsRange_example = range-IsRange next (λ x h. refl) net 29 (omega arith) (omega arith)

-- The address 10.1.1.2 is the last one given, to the container `a`.
abbrev info_a : ContainerNetInfo
info_a = record { id = codes "a"; if_name = codes "e" }

abbrev used : Data
used = record { ips = (dotted (net + 2), info_a) ∷ []; last = dotted (net + 2) }

abbrev store : Store
store = record { data_now = no_data; file = saved used; writable = true; trace = [] }

pub range : IsRange next im (net + 1) (net + 7)
range = range-IsRange next (λ x h. refl) net 29 (omega arith) (omega arith)

pub small : net + 7 < 2 ^ 32
small = omega arith

pub starts : StartsAt next im (net + 1) (net + 7) range small (net + 2) used
starts = record {
  from = ap (or_gateway im) (parse_ip-dotted (net + 2) (omega arith));
  low = omega arith;
  high = omega arith;
}

search-eq-reference_example :
    search_from next im
      (some (v4 (net + 2)))
      (codes "b")
      (codes "e")
      (2 ^ 33)
      (some (v4 (net + 2)))
      store
    ≡ reference next im (net + 1) (net + 7) (net + 2) range (codes "b") (codes "e") store
search-eq-reference_example =
    search-eq-reference next im (net + 1) (net + 7) (net + 2) range (codes "b") (codes "e") store
      (2 ^ 33) (omega arith) (omega arith) (omega arith)

pub b_new : key_of (codes "b") used.ips ≡ none
unfolding key_of same
b_new = refl

a_has : key_of (codes "a") used.ips ≡ some (dotted (net + 2))
unfolding key_of same
a_has = refl

allocate_ip-Allocation_example :
    Allocation
      (net + 1)
      (net + 7)
      (codes "b")
      (codes "e")
      used
      store
      (allocate_ip next im (codes "b") (codes "e") store)
allocate_ip-Allocation_example =
    allocate_ip-Allocation next im (net + 1) (net + 7) range small (codes "b") (codes "e") used
      store (net + 2) starts refl refl b_new

used-IsSound : IsSound next im (net + 1) (net + 7) range small used
unfolding has_key key_of
used-IsSound = record {
  valid = (refl, refl, tt);
  inside = (at (net + 2) (omega arith) (omega arith), tt);
  last_at = net + 2;
  starts = starts;
}

abbrev store-Holds : Holds next im (net + 1) (net + 7) range small store
store-Holds = record { writes = refl; content = used; in_file = refl; sound = used-IsSound }

abbrev calls : List Call
calls =
    allocate (codes "b") (codes "e") ∷ release (codes "a") ∷ allocate (codes "c") (codes "e") ∷ []

after_calls-Holds_example :
    Holds next im (net + 1) (net + 7) range small (after_calls next im calls store)
after_calls-Holds_example =
    after_calls-Holds next im (net + 1) (net + 7) range small calls store store-Holds

abbrev sparing : List Call
sparing =
    allocate (codes "b") (codes "e") ∷ allocate (codes "c") (codes "e") ∷ release (codes "b") ∷ []

b_is_not_a : codes "b" ≢ codes "a"
b_is_not_a e = ground arith

after_calls-keeps_address_example :
    Has (codes "a") (dotted (net + 2)) (after_calls next im sparing store)
    × ((b if_name : Bytes)
        → b ≢ codes "a"
        → (allocate_ip next im b if_name (after_calls next im sparing store)).0
          ≢ ok (parse_ip (dotted (net + 2))))
after_calls-keeps_address_example =
    after_calls-keeps_address next im (net + 1) (net + 7) range small (codes "a") (dotted (net + 2))
      sparing store store-Holds (b_is_not_a, tt)
      (record { data_of = used; in_file = refl; has = a_has })

release_ip-erases_example :
    (release_ip (codes "a") store ≡ (ok tt, changed (without (dotted (net + 2)) used) store))
    × (key_of (codes "a") (without (dotted (net + 2)) used).ips ≡ none)
    × (has_key (dotted (net + 2)) (without (dotted (net + 2)) used).ips ≡ false)
release_ip-erases_example =
    release_ip-erases next im (net + 1) (net + 7) range small (codes "a") (dotted (net + 2)) store
      store-Holds a_has

-- A host whose configuration gives the subnet 10.1.1.0/29 and whose stores are all `store`.
abbrev plugin_conf : PluginConf
plugin_conf = record { name = codes "mynet"; cni_version = codes "1.0.0"; data_dir = [] }

abbrev subnet_conf : SubnetConf
subnet_conf = record { subnet = cidr_text net 29; bridge = codes "testcni0" }

abbrev read_plugin : Bytes → Result PluginConf
read_plugin t = ok plugin_conf

abbrev read_subnet : Bytes → Result SubnetConf
read_subnet t = ok subnet_conf

abbrev prints : CniResult → Bytes → Result (Unit {0})
prints r version = ok tt

abbrev host : Host
host = record {
  subnet_file = some [];
  writable = true;
  stores = λ path. store;
  lockable = λ path. true;
  closed = [];
  printed = [];
}

abbrev args : Args
args = record { container_id = codes "b"; if_name = codes "e"; stdin_data = [] }

reads : new_ipam next (cidr_text net 29) ≡ ok im
reads = new_ipam-cidr_text next (λ x h. refl) net 29 (omega arith) (omega arith) (omega arith)

loads :
    load_cni_config read_plugin read_subnet [] host
    ≡ (ok (record { plugin = plugin_conf; subnet = subnet_conf }), host)
unfolding load_cni_config parse_plugin_config load_subnet_config
loads = refl

abbrev begins : Begins read_plugin read_subnet prints next args host im
begins = record {
  conf = record { plugin = plugin_conf; subnet = subnet_conf };
  loads = loads;
  manages = reads;
  locks = refl;
}

cmd_add-Added_example :
    Added read_plugin read_subnet prints next args host begins
      (net + 1)
      (net + 7)
      used
      (cmd_add read_plugin read_subnet prints next args host)
cmd_add-Added_example =
    cmd_add-Added read_plugin read_subnet prints next args host begins (net + 1) (net + 7) (net + 2)
      used range small starts refl refl b_new (λ r. refl)
