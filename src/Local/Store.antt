-- ===== src/Local/Store.antt =====
-- plugins/ipam/local/store/store.go: the addresses in use, in a file behind a lock. The
-- lock, the reads and the writes are recorded, the last one first. A Go map is a list of its entries in the
-- order of an iteration.
pub mod Maps
pub mod Lock
use my_cni.Prelude.{ℕ, Bool, true, false, List, [], ◌∷◌, ◌++◌, Option, none, some, if◌then◌else◌}
use my_cni.Text.{Bytes, codes, same}
use my_cni.Net.{Ip, Notation6, ip_string, parse_ip}
use my_cni.Exec.{Exec, Result, ok, err, panic, pure, raise, crash, message, deferring, ◌>>=◌, ◌>>◌}

pub record ContainerNetInfo : Type 0 where
  pub id : Bytes
  pub if_name : Bytes

pub record Data : Type 0 where
  pub ips : List (Bytes × ContainerNetInfo)
  pub last : Bytes

-- What the file holds: no file, one that cannot be read, a text that is not JSON of the right form,
-- the text `null`, or a `Data`.
pub data File : Type 0 where
  absent unreadable garbled null : File
  saved : Data → File

pub data Event : Type 0 where
  lock unlock rlock runlock read write : Event

pub record Store : Type 0 where
  pub data_now : Data
  pub file : File
  -- Whether the disk takes writes.
  pub writable : Bool
  pub trace : List Event

abbrev pub no_data : Data
no_data = record { ips = []; last = [] }

abbrev pub did : Event → Store → Store
did e s = record s { trace = e ∷ s.trace }

-- The errors of the lock are dropped by every caller.
unfoldable pub lock_store : Exec Store (Unit {0})
lock_store s = (ok tt, did lock s)

unfoldable pub unlock_store : Exec Store (Unit {0})
unlock_store s = (ok tt, did unlock s)

unfoldable pub rlock_store : Exec Store (Unit {0})
rlock_store s = (ok tt, did rlock s)

unfoldable pub runlock_store : Exec Store (Unit {0})
runlock_store s = (ok tt, did runlock s)

-- `json.Marshal` of the data, written over the file.
unfoldable pub save : Exec Store (Unit {0})
save s =
    if s.writable
    then (ok tt, record (did write s) { file = saved s.data_now })
    else (err (message "write"), did write s)

-- The file is made if it is not there; then, and where it has no "ips", the map is empty.
abbrev load_file : File → Exec Store (Unit {0})
load_file absent s =
    if s.writable
    then (ok tt, record (did write s) { file = saved no_data; data_now = no_data })
    else (err (message "create"), did write s)
load_file unreadable s = (err (message "read"), s)
load_file garbled s = (err (message "json"), s)
load_file null s = (panic, s)
load_file (saved d) s = (ok tt, record s { data_now = d })

unfoldable pub load_data : Exec Store (Unit {0})
load_data s = load_file s.file (did read s)

-- The first entry of an iteration that the container has.
unfoldable pub key_of : Bytes → List (Bytes × ContainerNetInfo) → Option Bytes
key_of id [] = none
key_of id ((ip, info) ∷ m) = if same info.id id then some ip else key_of id m

-- `m[key] = info`.
unfoldable pub insert :
    Bytes → ContainerNetInfo → List (Bytes × ContainerNetInfo) → List (Bytes × ContainerNetInfo)
insert key info [] = (key, info) ∷ []
insert key info ((k, i) ∷ m) = if same k key then (key, info) ∷ m else (k, i) ∷ insert key info m

-- `delete(m, key)`.
unfoldable pub erase : Bytes → List (Bytes × ContainerNetInfo) → List (Bytes × ContainerNetInfo)
erase key [] = []
erase key ((k, i) ∷ m) = let rest = erase key m in if same k key then rest else (k, i) ∷ rest

unfoldable pub has_key : Bytes → List (Bytes × ContainerNetInfo) → Bool
has_key key [] = false
has_key key ((k, i) ∷ m) = if same k key then true else has_key key m

module _ ⦃n6 : Notation6⦄ where
  -- `Last()`: nil where there is no last address.
  unfoldable pub last_ip : Store → Option Ip
  last_ip s = parse_ip s.data_now.last

  abbrev parsed_key : Option Bytes → Option Ip × Bool
  parsed_key none = (none, false)
  parsed_key (some ip) = (parse_ip ip, true)

  unfoldable pub get_ip_by_id : Bytes → Store → Option Ip × Bool
  get_ip_by_id id s = parsed_key (key_of id s.data_now.ips)

  -- A nil address changes nothing.
  unfoldable pub add : Option Ip → Bytes → Bytes → Exec Store (Unit {0})
  add none id ifname s = (ok tt, s)
  add (some ip) id ifname s =
      let key = ip_string (some ip) in
      save (record s {
        data_now = record {
          ips = insert key (record { id = id; if_name = ifname }) s.data_now.ips;
          last = key;
        };
      })

  unfoldable pub contain : Option Ip → Store → Bool
  contain ip s = has_key (ip_string ip) s.data_now.ips

abbrev del_key : Option Bytes → Exec Store (Unit {0})
del_key none s = (ok tt, s)
del_key (some ip) s =
    save (record s { data_now = record s.data_now { ips = erase ip s.data_now.ips } })

unfoldable pub del : Bytes → Exec Store (Unit {0})
del id s = del_key (key_of id s.data_now.ips) s
