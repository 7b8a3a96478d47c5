-- ===== src/Vxlan/Teardown.antt =====
-- What `cmdDel` does to the map of containers, and where it panics.
use my_cni.Prelude.{
  ◌≡◌, ◌⊎◌, inl, inr, refl, Bool, true, false, List, [], ◌∷◌, none, some, ℕ, ◌<◌, ◌^◌, ◌/◌, ◌==◌,
  Bool-cases, All, if◌then◌else◌, arith,
}
use my_cni.Text.{Bytes, same, Lacks}
use my_cni.Text.Split.{split_single}
use my_cni.Net.{v4, v6, Mask, IpNet, Notation6, ip_string}
use my_cni.Exec.{Exec, Error, not_exist, Result, ok, err, panic}
use my_cni.Bpf.{Ebpf, word, lxc_map_path}
use my_cni.Bpf.Entries.{IsLawful}
use my_cni.Kernel.{World}
use my_cni.Links.{del_link_by_name_addr}
use my_cni.Ifaces.{exec_del}
use my_cni.Vxlan.{NetConf, K8sEnvArgs, load_net_conf, inet_ip_to_uint32}
use my_cni.Vxlan.Plugin.{CmdArgs, delete_entries, clean_up, clean_ns, cmd_del}

-- The error for a key that is not there.
abbrev pub is_missing : Error → Bool
is_missing not_exist = true
is_missing _ = false

-- What the library documents of a deletion: it ends; the key has no value behind one that goes well, and
-- other keys keep theirs; one that fails changes nothing, and has a special error for a key that is not
-- there; the pins are as they were.
pub record Deletes {B : Ebpf} (L : IsLawful B) : Type 1 where
  pub ends :
      (s : B.State) (m : B.Map) (k : Bytes)
      → ((B.delete m k s).0 ≡ ok tt) ⊎ ((e : Error) × ((B.delete m k s).0 ≡ err e))
  pub clears :
      (s : B.State) (m : B.Map) (k j : Bytes)
      → (B.delete m k s).0 ≡ ok tt
      → L.entry (B.delete m k s).1 m j ≡ (if same k j then none else L.entry s m j)
  pub fails :
      (s : B.State) (m : B.Map) (k j : Bytes) (e : Error)
      → (B.delete m k s).0 ≡ err e
      → L.entry (B.delete m k s).1 m j ≡ L.entry s m j
  pub absent :
      (s : B.State) (m : B.Map) (k : Bytes) (e : Error)
      → (B.delete m k s).0 ≡ err e
      → is_missing e ≡ true
      → L.entry s m k ≡ none
  pub pins : (s : B.State) (m : B.Map) (k p : Bytes) → L.pinned (B.delete m k s).1 p ≡ L.pinned s p

abbrev pub nets : List (ℕ × Mask) → List IpNet
nets [] = []
nets ((n, m) ∷ ns) = record { ip = v4 n; mask = m } ∷ nets ns

-- Whether the key is that of one of the addresses.
pub is_key : Bytes → List (ℕ × Mask) → Bool
is_key j [] = false
is_key j ((n, m) ∷ ns) = if same (word n) j then true else is_key j ns

abbrev pub AreWords : List (ℕ × Mask) → Type 0
AreWords = All (λ p. p.0 < 2 ^ 32)

module _ (W : World) {L : IsLawful W.bpf} (D : Deletes L) (m : W.bpf.Map) ⦃n6 : Notation6⦄ where
  -- What becomes of an address's key: it has no value, or a deletion of it was refused, with another
  -- error than that of a missing key.
  pub data Fate (j : Bytes) (t : W.bpf.State) : Type 0 where
    gone : L.entry t m j ≡ none → Fate j t
    refused :
        (u : W.bpf.State) (e : Error)
        → (W.bpf.delete m j u).0 ≡ err e
        → is_missing e ≡ false
        → Fate j t

  -- Success; the keys of the addresses are gone or were refused, the others are as they were.
  pub record Cleared (ns : List (ℕ × Mask)) (s : W.bpf.State) (q : Result (Unit {0}) × W.bpf.State)
      : Type 0 where
    pub returns : q.0 ≡ ok tt
    pub fates : (j : Bytes) → is_key j ns ≡ true → Fate j q.1
    pub others : (j : Bytes) → is_key j ns ≡ false → L.entry q.1 m j ≡ L.entry s m j

module _ {S V A : Type 0} where
  abbrev pub on_state : (S → S) → Result A × (V × S) → Result A × (V × S)
  on_state f (r, (v, s)) = (r, (v, f s))

-- What `ns.WithNetNSPath` documents for the path of a namespace: the closure runs once, inside the
-- namespace, and what it returns and leaves behind is that of the call. Entering and leaving do not
-- touch the maps.
pub record Visits (W : World) (L : IsLawful W.bpf) (path : Bytes) : Type 1 where
  pub host_ns : W.Ns
  pub enter : W.bpf.State → W.bpf.State
  pub leave : W.bpf.State → W.bpf.State
  pub runs :
      {V : Type 0} (f : W.Ns → Exec (V × W.bpf.State) (Unit {0})) (v : V) (s : W.bpf.State)
      → W.with_ns_path path f (v, s) ≡ on_state leave (f host_ns (v, enter s))
  pub leave_entries :
      (s : W.bpf.State) (m : W.bpf.Map) (j : Bytes) → L.entry (leave s) m j ≡ L.entry s m j

module _ (W : World) {L : IsLawful W.bpf} ⦃n6 : Notation6⦄ (unmarshal : Bytes → Result NetConf)
    (load_args : Bytes → Result K8sEnvArgs) (args : CmdArgs) (n : NetConf)
    (s released : W.bpf.State) (V : Visits W L args.netns)
    (loads : load_net_conf unmarshal load_args args.stdin_data args.args ≡ ok n)
    (has_ns : same args.netns [] ≡ false)
    (releases : exec_del W n.ipam_type args.stdin_data s ≡ (ok tt, released)) where
  to_clean_ns : cmd_del W unmarshal load_args args s ≡ clean_ns W args released
  unfolding cmd_del
  to_clean_ns = rw (loads, releases, has_ns) refl

  module _ (D : Deletes L) (m : W.bpf.Map) (ns : List (ℕ × Mask)) (gone : W.bpf.State)
      (words : AreWords ns)
      (deletes : del_link_by_name_addr W args.if_name (V.enter released) ≡ (ok (nets ns), gone))
      (pinned : L.pinned gone lxc_map_path ≡ some m) where
    abbrev cleaned : Result (Unit {0}) × W.bpf.State
    cleaned = delete_entries W (nets ns) gone

  module _ (x : ℕ) (mask : Mask) (rest : List IpNet) (gone : W.bpf.State)
      (unmapped : (x / 2 ^ 32 == 0xffff) ≡ false) (colons : Lacks b'.' (n6.print x))
      (deletes : del_link_by_name_addr W args.if_name (V.enter released)
        ≡ (ok (record { ip = v6 x; mask = mask } ∷ rest), gone)) where
    printed : ip_string (some (v6 x)) ≡ n6.print x
    unfolding ip_string
    printed = elim (Bool-cases (x / 2 ^ 32 == 0xffff)) [ inl e ↦ cc | inr e ↦ ground arith ]

    no_parts : inet_ip_to_uint32 (ip_string (some (v6 x))) ≡ panic
    unfolding inet_ip_to_uint32
    no_parts = rw (printed, split_single b'.' (n6.print x) colons) refl

    panics_inside : (clean_up W args.if_name ([], V.enter released)).0 ≡ panic
    unfolding delete_entries
    panics_inside = rw (deletes, no_parts) refl

    panicked :
        (q : Result (Unit {0}) × (List IpNet × W.bpf.State))
        → q.0 ≡ panic
        → W.with_ns_path args.netns (λ _. clean_up W args.if_name) ([], released)
          ≡ on_state V.leave q
        → (clean_ns W args released).0 ≡ panic
    panicked (r, (v, t)) e w = rw (w, e) refl

    -- Where the first global address of the link is IPv6, the command panics: the printed address has
    -- no dots, and its parts are indexed.
    pub cmd_del-panics : (cmd_del W unmarshal load_args args s).0 ≡ panic
    cmd_del-panics =
        rw to_clean_ns
          (panicked _ panics_inside (V.runs (λ _. clean_up W args.if_name) [] released))
