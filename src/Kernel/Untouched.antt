-- ===== src/Kernel/Untouched.antt =====
-- Parts of the host that the calls of the plugin leave alone.
use my_cni.Prelude.{ℕ, ap, ◌≡◌, refl, ◌∙◌, Option, none, some}
use my_cni.Text.{Bytes}
use my_cni.Net.{Ip, Mask}
use Prim.Native.String.{String}
use my_cni.Exec.{wrap, ignore, Exec, Error, Result, ok, err, panic, hang}
use my_cni.Exec.Keeps.{Keeps, Keeps-wrap, Keeps-ignore, keeps_rules}
use my_cni.Bpf.{MapSpec}
use my_cni.Tc.{runs, ends, shows, prints_text}
use my_cni.Kernel.{World, Link, NewLink, Route, CniResult, shell, inside, assign, scoped, values}

-- A view of the host, such as the addresses that the address plugin has given out, which no call but
-- those of the address plugin changes. A namespace call changes it where its closure does.
pub record Untouched (W : World) : Type 1 where
  pub View : Type 0
  pub view : W.bpf.State → View
  pub by_name : (n : Bytes) → Keeps view (W.link_by_name n)
  pub add : (l : NewLink) → Keeps view (W.link_add l)
  pub del : (n : Bytes) → Keeps view (W.link_del n)
  pub set_up : (l : Link) → Keeps view (W.link_set_up l)
  pub addr : (l : Link) (ip : Option Ip) (m : Mask) → Keeps view (W.addr_add l ip m)
  pub ecmp : (r : Route) → Keeps view (W.route_add_ecmp r)
  pub route_del : (r : Route) → Keeps view (W.route_del r)
  pub interface : (n : Bytes) → Keeps view (W.interface_by_name n)
  pub random : (n : ℕ) → Keeps view (W.random n)
  pub sysctl : (n v : Bytes) → Keeps view (W.sysctl n v)
  pub settle : (n : Bytes) (t : ℕ) → Keeps view (W.settle_addresses n t)
  pub output : (c : Bytes) (s : W.bpf.State) → view (W.output c s).1 ≡ view s
  pub get_ns : (n : Bytes) → Keeps view (W.get_ns n)
  pub close_ns : (n : W.Ns) → Keeps view (W.close_ns n)
  pub do_in :
      {V : Type 0} (n : W.Ns) (f : W.Ns → Exec (V × W.bpf.State) (Unit {0}))
      → ((host : W.Ns) → Keeps (λ (p : V × W.bpf.State). view p.1) (f host))
      → Keeps (λ (p : V × W.bpf.State). view p.1) (W.do_in n f)
  pub print : (r : CniResult) (v : Bytes) → Keeps view (W.print_result r v)

-- A view that the calls on maps do not change either.
pub record MapsUntouched {W : World} (U : Untouched W) : Type 0 where
  pub load_pinned : (p : Bytes) → Keeps U.view (W.bpf.load_pinned p)
  pub remove_memlock : Keeps U.view W.bpf.remove_memlock
  pub new_map : (m : MapSpec) → Keeps U.view (W.bpf.new_map m)
  pub pin : (m : W.bpf.Map) (p : Bytes) → Keeps U.view (W.bpf.pin m p)
  pub put : (m : W.bpf.Map) (k v : Bytes) → Keeps U.view (W.bpf.put m k v)

-- A closure's view is that of the host behind its variables.
module _ {S V A X : Type 0} {view : S → X} where
  pub Keeps-inside : (m : Exec S A) → Keeps view m → Keeps (λ (p : V × S). view p.1) (inside m)
  Keeps-inside m k = record { at = λ p. k.at p.1 }

  pub Keeps-wrap_inside :
      (text : String) (m : Exec S A)
      → Keeps view m
      → Keeps (λ (p : V × S). view p.1) (wrap text (inside m))
  Keeps-wrap_inside text m k = Keeps-wrap text (inside m) (Keeps-inside m k)

  pub Keeps-ignore_inside :
      (m : Exec S A) → Keeps view m → Keeps (λ (p : V × S). view p.1) (ignore (inside m))
  Keeps-ignore_inside m k = Keeps-ignore (inside m) (Keeps-inside m k)

pub Keeps-assign :
    {S V X : Type 0} (view : S → X) (v : V) → Keeps (λ (p : V × S). view p.1) (assign {S = S} v)
Keeps-assign view v = record { at = λ p. refl }

scoped_end : {S V : Type 0} (r : Result (Unit {0})) (v : V) (s : S) → (values (r, (v, s))).1 ≡ s
scoped_end (ok u) v s = refl
scoped_end (err e) v s = refl
scoped_end panic v s = refl
scoped_end hang v s = refl

module _ {S V X : Type 0} {view : S → X} where
  pub Keeps-scoped :
      (v : V) (m : Exec (V × S) (Unit {0}))
      → Keeps (λ (p : V × S). view p.1) m
      → Keeps view (scoped v m)
  Keeps-scoped v m k = record {
    at = λ s. ap view (scoped_end (m (v, s)).0 (m (v, s)).1.0 (m (v, s)).1.1) ∙ k.at (v, s);
  }

-- For `search`, over one view of one host.
module _ {W : World} (U : Untouched W) where
  ended : (r : Bytes × Option Error) (s : W.bpf.State) → (ends (shell W) (r, s)).1 ≡ s
  ended (o, none) s = refl
  ended (o, some e) s = refl

  pub runs-Keeps : (c : Bytes) → Keeps U.view (runs (shell W) c)
  runs-Keeps c = record {
    at = λ s. ap U.view (ended (W.output c s).0 (W.output c s).1) ∙ U.output c s;
  }

  printed :
      (t : Bytes) (r : Bytes × Option Error) (s : W.bpf.State)
      → (prints_text (shell W) t (r, s)).1 ≡ s
  printed t (o, e) s = refl

  pub shows-Keeps : (c t : Bytes) → Keeps U.view (shows (shell W) c t)
  shows-Keeps c t = record {
    at = λ s. ap U.view (printed t (W.output c s).0 (W.output c s).1) ∙ U.output c s;
  }

pub ruleset untouched_rules =
    (keeps_rules, Keeps-inside, Keeps-wrap_inside, Keeps-ignore_inside, Keeps-assign, Keeps-scoped)
