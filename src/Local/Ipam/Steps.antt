-- ===== src/Local/Ipam/Steps.antt =====
-- The calls of the address manager one after the other, and what a release leaves in the file.
use mathlib.Core.Option.{some-injective}
use my_cni.Prelude.{
  ℕ, ◌≤◌, ◌<◌, ◌≡◌, ap, true, List, [], ◌∷◌, Option, none, some, arith, Bool-cases, inl, inr, subst,
}
use my_cni.Text.{Bytes, same}
use my_cni.Text.Equal.{same_iff}
use my_cni.Net.{Ip, Notation6, dotted}
use my_cni.Exec.{ok}
use my_cni.Local.Store.{
  Data, File, saved, Store, key_of, erase, has_key, load_data, lock_store, unlock_store, save, del,
}
use my_cni.Local.Store.Maps.{Entries, IsValid, Keys, key_of-has_key}
use my_cni.Local.Ipam.{Ipam, allocate_ip, release_ip}
use my_cni.Local.Ipam.Safety.{looked, changed}

-- The text of an address of the subnet behind the gateway.
pub data InRange (g top : ℕ) : Bytes → Type 0 where
  at : (n : ℕ) → g < n → n ≤ top → InRange g top (dotted n)

-- What `find` gives for an address in range.
pub key-InRange :
    (g top : ℕ) (id k : Bytes) (m : Entries)
    → Keys (InRange g top) m
    → key_of id m ≡ some k
    → InRange g top k
unfolding key_of
key-InRange g top id k [] ps e = cc
key-InRange g top id k ((l, x) ∷ m) (p, ps) e = elim (Bool-cases (same x.id id)) [
  | inl h ↦ subst (InRange g top) (some-injective l k (rw h at e)) p
  | inr h ↦ key-InRange g top id k m ps (rw h at e)
]

-- The container of an address.
pub owner :
    (a b k : Bytes) (m : Entries) → IsValid m → key_of a m ≡ some k → key_of b m ≡ some k → a ≡ b
unfolding key_of has_key
owner a b k [] v e f = cc
owner a b k ((l, x) ∷ m) (h, n, v) e f = ground (
  arith,
  owner a b k m v,
  same_iff x.id a,
  same_iff x.id b,
  key_of-has_key a k m,
  key_of-has_key b k m,
)

abbrev pub content_of : Data → File → Data
content_of d (saved e) = e
content_of d _ = d

pub saved_inj : {d e : Data} → saved d ≡ saved e → d ≡ e
saved_inj {d} p = ap (content_of d) p

-- A call of the plugin.
pub data Call : Type 0 where
  allocate : Bytes → Bytes → Call
  release : Bytes → Call

module _ (cip_next : Option Ip → Option Ip) ⦃n6 : Notation6⦄ (im : Ipam) where
  unfoldable pub after_call : Call → Store → Store
  after_call (allocate id if_name) s = (allocate_ip cip_next im id if_name s).1
  after_call (release id) s = (release_ip id s).1

  unfoldable pub after_calls : List Call → Store → Store
  after_calls [] s = s
  after_calls (c ∷ cs) s = after_calls cs (after_call c s)

pub release_none :
    (id : Bytes) (d : Data) (s : Store)
    → s.file ≡ saved d
    → key_of id d.ips ≡ none
    → release_ip id s ≡ (ok tt, looked d s)
unfolding release_ip lock_store unlock_store load_data del
release_none id d s f k = rw (f, k)

-- What the file has after a release.
abbrev pub without : Bytes → Data → Data
without k d = record d { ips = erase k d.ips }

pub release_some :
    (id k : Bytes) (d : Data) (s : Store)
    → s.file ≡ saved d
    → s.writable ≡ true
    → key_of id d.ips ≡ some k
    → release_ip id s ≡ (ok tt, changed (without k d) s)
unfolding release_ip lock_store unlock_store load_data del save
release_some id k d s f w e = rw (f, e, w)
