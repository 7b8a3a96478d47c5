-- ===== src/Subnetd.antt =====
-- cmd/myetcd.go: the daemon that gives a node one of 256 subnets, marked in a mask that the nodes share
-- in etcd. The etcd client, the client of Kubernetes, the JSON codec and the certificates are
-- parameters; log lines and the signal handler are left out.
pub mod Daemon
pub mod Mask
pub mod Laws
pub mod Sync
pub mod Round
pub mod Cluster
pub mod Overlap
pub mod Progress
use my_cni.Prelude.{
  ℕ, zero, suc, ◌+◌, Bool, true, false, ◌||◌, List, [], ◌∷◌, ◌++◌, Option, none, some, leb, ◌==◌,
  drop, length, if◌then◌else◌,
}
use my_cni.Text.{Bytes, codes, split, same}
use my_cni.Net.{Ip, IpNet, Notation6, to4, parse_cidr, ip_string, itoa, atoi}
use my_cni.Exec.{
  Exec, Error, Result, ok, err, panic, mask_exists, mask_update_failed, mask_get_failed,
  subnet_file_missing, message, pure, raise, crash, lift, rescue, ignore, ◌>>=◌, ◌>>◌,
}
use my_cni.Tc.{starts_with}
use my_cni.Local.Host.{Host, SubnetConf, load_subnet_config}

-- `etcd.Compare(etcd.Version(key), "=", 0)` and the same with ">".
pub data VersionTest : Type 0 where
  absent present : Bytes → VersionTest

pub data Op : Type 0 where
  op_put : (key value : Bytes) → (lease : ℕ) → Op
  op_get : (key : Bytes) → (lease : ℕ) → Op

-- What the program calls of etcd's client. A transaction tells whether its test succeeded, and gives
-- the values that its operation returned.
pub record LeaseEtcd : Type 1 where
  pub State : Type 0
  pub grant : ℕ → Exec State ℕ
  pub revoke : ℕ → Exec State (Unit {0})
  pub txn : VersionTest → Op → Exec State (Bool × List Bytes)
  pub values_under : Bytes → Exec State (List Bytes)

pub record EtcdConfig : Type 0 where
  pub endpoints : List Bytes
  pub keyfile : Bytes
  pub certfile : Bytes
  pub ca_file : Bytes

-- A node of Kubernetes: its name and its addresses.
pub record KubeNode : Type 0 where
  pub name : Bytes
  pub addresses : List Bytes

pub record Kube : Type 0 where
  pub build_config : Result (Unit {0})
  pub nodes : Result (List KubeNode)

-- The process: etcd, the node's files, and the message of `log.Fatal`, which ends the process.
pub record Process (E : LeaseEtcd) : Type 0 where
  pub server : E.State
  pub host : Host
  pub fatal : Option Error

abbrev pub mask_key : Bytes
mask_key = codes "mycni/subnet_bitmask"

abbrev pub minions : Bytes
minions = codes "/registry/minions/"

-- `strings.Repeat("0", n)`.
unfoldable pub zeros : ℕ → Bytes
zeros zero = []
zeros (suc n) = b'0' ∷ zeros n

-- `strings.Replace(s, old, "", 1)`.
unfoldable pub cut_first : Bytes → Bytes → Bytes
cut_first old [] = []
cut_first old (c ∷ s) =
    let rest = cut_first old s in
    if starts_with old (c ∷ s) then drop (length old) (c ∷ s) else c ∷ rest

-- The value that was read last, or the default.
abbrev pub last_or : Bytes → List Bytes → Bytes
last_or old [] = old
last_or old (v ∷ vs) = last_or v vs

-- The loop over `notUsed`: the first index that holds '0', or the number of rounds; an index behind the
-- end is out of range.
unfoldable pub find_unused : ℕ → ℕ → Bytes → Result ℕ
find_unused zero i mask = ok i
find_unused (suc rounds) i [] = panic
find_unused (suc rounds) i (c ∷ mask) =
    let later = find_unused rounds (i + 1) mask in if c == b'0' then ok i else later

-- `tmp[i] = byte('1')`.
unfoldable pub mark : ℕ → Bytes → Option Bytes
mark i [] = none
mark zero (c ∷ mask) = some (b'1' ∷ mask)
mark (suc i) (c ∷ mask) = elim (mark i mask) [ none ↦ none | some rest ↦ some (c ∷ rest) ]

abbrev pub in_range : Option Bytes → Result Bytes
in_range none = panic
in_range (some m) = ok m

abbrev pub subnet_conf : ℕ → SubnetConf
subnet_conf bit = record {
  subnet = codes "10.244." ++ (itoa bit ++ codes ".0/24");
  bridge = codes "mycni0";
}

abbrev pub checked_number : ℕ × Bool → Result ℕ
checked_number (n, true) = ok n
checked_number (n, false) = err (message "strconv.Atoi")

-- `strconv.Atoi(ipParts[2])`.
abbrev third_number : List Bytes → Result ℕ
third_number (a ∷ b ∷ c ∷ _) = checked_number (atoi c)
third_number _ = panic

module _ ⦃n6 : Notation6⦄ where
  -- `ip.To4() != nil`; a subnet that cannot be read has a nil address.
  abbrev pub bit_of : Option (Ip × IpNet) → Result ℕ
  bit_of none = err (message "IPv6 Address not implemented!")
  bit_of (some (ip, net)) = elim (to4 ip) [
    | none ↦ err (message "IPv6 Address not implemented!")
    | some n ↦ third_number (split b'.' (ip_string (some ip)))
  ]

module _ (E : LeaseEtcd) where
  module _ {A : Type 0} where
    abbrev pub fatally : Error → Exec (Process E) A
    fatally e p = (panic, record p { fatal = some e })

    abbrev with_server : Process E → Result A × E.State → Result A × Process E
    with_server p (r, s) = (r, record p { server = s })

    abbrev pub on_server : Exec E.State A → Exec (Process E) A
    on_server m p = with_server p (m p.server)

    abbrev with_host : Process E → Result A × Host → Result A × Process E
    with_host p (r, h) = (r, record p { host = h })

    abbrev pub on_host : Exec Host A → Exec (Process E) A
    on_host m p = with_host p (m p.host)

  abbrev pub revoke_lease : ℕ → Exec (Process E) (Unit {0})
  revoke_lease lease = rescue (on_server (E.revoke lease)) fatally

  -- A transaction under a new lease of three seconds; the lease is given back if it fails.
  abbrev pub under_lease : VersionTest → (ℕ → Op) → Error → Exec (Process E) (List Bytes)
  under_lease test op failure = do
    lease ← on_server (E.grant 3)
    (succeeded, values) ←
        rescue (on_server (E.txn test (op lease))) (λ e. do revoke_lease lease; raise e)
    if succeeded then pure values else do revoke_lease lease; raise failure

  unfoldable pub init_bit_mask : Exec (Process E) (Unit {0})
  init_bit_mask = do
    under_lease (absent mask_key) (op_put mask_key (zeros 256)) mask_exists
    pure tt

  unfoldable pub renew_bit_mask : Bytes → Exec (Process E) (Unit {0})
  renew_bit_mask bitmask = do
    under_lease (present mask_key) (op_put mask_key bitmask) mask_update_failed
    pure tt

  unfoldable pub watch_bit_mask : Exec (Process E) Bytes
  watch_bit_mask = do
    values ← under_lease (present mask_key) (op_get mask_key) mask_get_failed
    pure (last_or (codes "000") values)

  abbrev cut_all : List Bytes → List Bytes
  cut_all [] = []
  cut_all (v ∷ vs) = cut_first minions v ∷ cut_all vs

  unfoldable pub node_names : Exec (Process E) (List Bytes)
  node_names = do values ← on_server (E.values_under minions); pure (cut_all values)

  -- A failed allocation of a client for Kubernetes is not looked at; a node without an address is out
  -- of range.
  abbrev show_nodes : List KubeNode → Exec (Process E) (Unit {0})
  show_nodes [] = pure tt
  show_nodes (n ∷ ns) = elim n.addresses [ [] ↦ crash | a ∷ addresses ↦ show_nodes ns ]

  unfoldable pub list_node_from_k8s : Kube → Exec (Process E) (Unit {0})
  list_node_from_k8s kube = do lift kube.build_config; nodes ← lift kube.nodes; show_nodes nodes

  unfoldable pub new_tls_config :
      (EtcdConfig → Result (Unit {0})) → EtcdConfig → Exec (Process E) (Unit {0})
  new_tls_config client_config c =
      if same c.keyfile [] || (same c.certfile [] || same c.ca_file [])
      then fatally
          (message "no certificate provided: connecting to etcd with http. This is insecure")
      else lift (client_config c)

  abbrev healthcheck : EtcdConfig
  healthcheck = record {
    endpoints = codes "127.0.0.1:2379" ∷ codes "10.176.35.14:2379" ∷ [];
    keyfile = codes "/etc/kubernetes/pki/etcd/healthcheck-client.key";
    certfile = codes "/etc/kubernetes/pki/etcd/healthcheck-client.crt";
    ca_file = codes "/etc/kubernetes/pki/etcd/ca.crt";
  }

  module _ (client_config : EtcdConfig → Result (Unit {0}))
      (connect : EtcdConfig → Exec E.State (Unit {0})) where
    unfoldable pub new_etcd_client : EtcdConfig → Exec (Process E) (Unit {0})
    new_etcd_client c = do new_tls_config client_config c; on_server (connect c)

    unfoldable pub new_etcd_manager : Exec (Process E) (Unit {0})
    new_etcd_manager = new_etcd_client healthcheck
