-- ===== src/Local/Ipam/Calls.antt =====
-- Sequences of calls of the address manager: each address of the file lies in the subnet behind the
-- gateway, and no two containers share one.
use my_cni.Prelude.{
  ℕ, ◌^◌, ◌≤◌, ◌<◌, ◌≡◌, refl, ◌∙◌, true, false, List, [], ◌∷◌, Option, none, some, arith,
}
use my_cni.Text.{Bytes}
use my_cni.Text.Equal.{same_refl}
use my_cni.Net.{Ip, v4, Notation6, parse_ip, dotted}
use my_cni.Net.Dotted.{parse_ip-dotted}
use my_cni.Exec.{Result, ok}
use my_cni.Local.Store.{
  Data, saved, Store, key_of, has_key, load_data, lock_store, unlock_store, get_ip_by_id,
}
use my_cni.Local.Store.Maps.{
  IsValid, Keys, insert-IsValid, erase-IsValid, insert-Keys, erase-Keys, has_key-erase,
  key_of-erase_self,
}
use my_cni.Local.Ipam.{Ipam, allocate_ip, release_ip}
use my_cni.Local.Ipam.Search.{IsRange}
use my_cni.Local.Ipam.Safety.{
  Allocation, given, used_up, allocate_ip-Allocation, StartsAt, looked, changed, with_entry,
  is_used,
}
use my_cni.Local.Ipam.Steps.{
  InRange, key-InRange, Call, after_call, after_calls, release_none, without, release_some, at,
  allocate, release,
}

module _ (cip_next : Option Ip → Option Ip) ⦃n6 : Notation6⦄ (im : Ipam) (g top : ℕ)
    (r : IsRange cip_next im g top) (small : top < 2 ^ 32) where
  -- The addresses of a file: each in range and with one container, and the last one given in range.
  pub record IsSound (d : Data) : Type 0 where
    pub valid : IsValid d.ips
    pub inside : Keys (InRange g top) d.ips
    pub last_at : ℕ
    pub starts : StartsAt cip_next im g top r small last_at d

  -- A store whose file is sound, on a disk that takes writes.
  pub record Holds (s : Store) : Type 0 where
    pub writes : s.writable ≡ true
    pub content : Data
    pub in_file : s.file ≡ saved content
    pub sound : IsSound content

  allocate_parsed :
      (id if_name k : Bytes) (d : Data) (s : Store) (x : Ip)
      → s.file ≡ saved d
      → key_of id d.ips ≡ some k
      → parse_ip k ≡ some x
      → allocate_ip cip_next im id if_name s ≡ (ok (some x), looked d s)
  unfolding allocate_ip lock_store unlock_store load_data get_ip_by_id
  allocate_parsed id if_name k d s x f e p = rw (f, e, p)

  pub allocate_held :
      (id if_name k : Bytes) (d : Data) (s : Store)
      → s.file ≡ saved d
      → key_of id d.ips ≡ some k
      → InRange g top k
      → allocate_ip cip_next im id if_name s ≡ (ok (parse_ip k), looked d s)
  allocate_held id if_name k d s f e (at n a b) =
      allocate_parsed id if_name (dotted n) d s (v4 n) f e (parse_ip-dotted n (omega arith))
      ∙ rw (parse_ip-dotted n (omega arith))

  with_entry-IsSound :
      (n : ℕ) (id if_name : Bytes) (d : Data)
      → IsSound d
      → g < n
      → n ≤ top
      → is_used n d ≡ false
      → key_of id d.ips ≡ none
      → IsSound (with_entry n id if_name d)
  with_entry-IsSound n id if_name d h a b u k = record {
    valid = insert-IsValid (dotted n) (record { id = id; if_name = if_name }) d.ips u k h.valid;
    inside =
        insert-Keys (InRange g top) (dotted n) (record { id = id; if_name = if_name }) d.ips
          (at n a b) h.inside;
    last_at = n;
    starts = record { from = rw (parse_ip-dotted n (omega arith)); low = omega arith; high = b };
  }

  without-IsSound : (k : Bytes) (d : Data) → IsSound d → IsSound (without k d)
  without-IsSound k d h = record {
    valid = erase-IsValid k d.ips h.valid;
    inside = erase-Keys (InRange g top) k d.ips h.inside;
    last_at = h.last_at;
    starts = record { from = h.starts.from; low = h.starts.low; high = h.starts.high };
  }

  looked-Holds : (d : Data) (s : Store) → s.writable ≡ true → IsSound d → Holds (looked d s)
  looked-Holds d s w h = record { writes = w; content = d; in_file = refl; sound = h }

  changed-Holds : (d : Data) (s : Store) → s.writable ≡ true → IsSound d → Holds (changed d s)
  changed-Holds d s w h = record { writes = w; content = d; in_file = refl; sound = h }

  Allocation-Holds :
      (id if_name : Bytes) (d : Data) (s : Store) (a : Result (Option Ip) × Store)
      → s.writable ≡ true
      → IsSound d
      → key_of id d.ips ≡ none
      → Allocation g top id if_name d s a
      → Holds (a.1)
  Allocation-Holds id if_name d s a w h k (given n b c u) =
      changed-Holds (with_entry n id if_name d) s w (with_entry-IsSound n id if_name d h b c u k)
  Allocation-Holds id if_name d s a w h k (used_up e u) = looked-Holds d s w h

  pub allocate-Holds :
      (id if_name : Bytes) (s : Store) → Holds s → Holds (allocate_ip cip_next im id if_name s).1
  allocate-Holds id if_name s h = by_key (key_of id h.content.ips) refl
    where
      by_key :
          (k : Option Bytes)
          → key_of id h.content.ips ≡ k
          → Holds (allocate_ip cip_next im id if_name s).1
      by_key none e =
          Allocation-Holds id if_name h.content s (allocate_ip cip_next im id if_name s) h.writes
            h.sound e
            (allocate_ip-Allocation cip_next im g top r small id if_name h.content s h.sound.last_at
              h.sound.starts h.in_file h.writes e)
      by_key (some k) e =
          rw
            (allocate_held id if_name k h.content s h.in_file e
              (key-InRange g top id k h.content.ips h.sound.inside e))
            (looked-Holds h.content s h.writes h.sound)

  pub release-Holds : (id : Bytes) (s : Store) → Holds s → Holds (release_ip id s).1
  release-Holds id s h = by_key (key_of id h.content.ips) refl
    where
      by_key : (k : Option Bytes) → key_of id h.content.ips ≡ k → Holds (release_ip id s).1
      by_key none e =
          rw (release_none id h.content s h.in_file e) (looked-Holds h.content s h.writes h.sound)
      by_key (some k) e =
          rw (release_some id k h.content s h.in_file h.writes e)
            (changed-Holds (without k h.content) s h.writes (without-IsSound k h.content h.sound))

  -- Whatever calls are made, the file stays sound: each address lies in the subnet behind the
  -- gateway, stands once and has one container.
  pub after_calls-Holds :
      (cs : List Call) (s : Store) → Holds s → Holds (after_calls cip_next im cs s)
  unfolding after_calls after_call
  after_calls-Holds [] s h = h
  after_calls-Holds (allocate id if_name ∷ cs) s h =
      after_calls-Holds cs (after_call cip_next im (allocate id if_name) s)
        (allocate-Holds id if_name s h)
  after_calls-Holds (release id ∷ cs) s h =
      after_calls-Holds cs (after_call cip_next im (release id) s) (release-Holds id s h)

  -- A container that has an address gets it again, and nothing is written.
  pub allocate_ip-again :
      (id if_name k : Bytes) (s : Store) (h : Holds s)
      → key_of id h.content.ips ≡ some k
      → allocate_ip cip_next im id if_name s ≡ (ok (parse_ip k), looked h.content s)
  allocate_ip-again id if_name k s h e =
      allocate_held id if_name k h.content s h.in_file e
        (key-InRange g top id k h.content.ips h.sound.inside e)

  -- A release takes the address of the container out of the file: the container has none then, and
  -- no container has that address.
  pub release_ip-erases :
      (id k : Bytes) (s : Store) (h : Holds s)
      → key_of id h.content.ips ≡ some k
      → (release_ip id s ≡ (ok tt, changed (without k h.content) s))
        × (key_of id (without k h.content).ips ≡ none)
        × (has_key k (without k h.content).ips ≡ false)
  release_ip-erases id k s h e = (
    release_some id k h.content s h.in_file h.writes e,
    key_of-erase_self id k h.content.ips h.sound.valid e,
    rw (has_key-erase k k h.content.ips, same_refl k),
  )
