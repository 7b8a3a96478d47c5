-- ===== src/Net/Dotted.antt =====
-- Every IPv4 address is read back from its dotted print.
use my_cni.Prelude.{
  ℕ, ◌+◌, ◌*◌, ◌/◌, ◌%◌, ◌^◌, ◌<◌, ◌≡◌, ◌≢◌, refl, ap, ◌∙◌, Bool, true, false, ◌&&◌, not, List, [],
  ◌∷◌, ◌++◌, Option, none, some, arith, ◌==◌, All-append, sym, ◌≤◌, all_below, all_below-elim,
  Bool-cases, inl, inr,
}
use my_cni.Text.{Bytes, split, join, Lacks}
use my_cni.Text.Split.{split-join}
use my_cni.Net.{
  dtoi, cut_slash, parse_cidr, network, itoa, octet, dotted, parse_dotted, kind, dots, v4, parse_ip,
  Notation6, four,
}

abbrev is_some_of : Option ℕ → ℕ → Bool
is_some_of none x = false
is_some_of (some y) x = y == x

abbrev lacks : ℕ → Bytes → Bool
lacks b [] = true
lacks b (c ∷ s) = not (c == b) && lacks b s

lacks-Lacks : (b : ℕ) (s : Bytes) → lacks b s ≡ true → Lacks b s
lacks-Lacks b [] h = tt
lacks-Lacks b (c ∷ s) h = elim (Bool-cases (c == b)) [
  | inl e ↦ absurd (cc_false e)
  | inr e ↦ ((λ p. ground arith), lacks-Lacks b s (ground arith))
]
  where
    cc_false : (c == b) ≡ true → ⊥
    cc_false e = ground arith

octet_table :
    all_below 256 (λ x.
      is_some_of (octet (itoa x)) x
      && (lacks b'.' (itoa x)
          && (lacks b'/' (itoa x) && (lacks b';' (itoa x) && lacks b':' (itoa x)))))
    ≡ true
unfolding all_below octet itoa
octet_table = refl

-- What the table says of one byte.
record IsPrinted (x : ℕ) : Type 0 where
  read : octet (itoa x) ≡ some x
  no_dot : Lacks b'.' (itoa x)
  no_slash : Lacks b'/' (itoa x)
  no_semicolon : Lacks b';' (itoa x)
  no_colon : Lacks b':' (itoa x)

is_some_of-eq : (o : Option ℕ) (x : ℕ) → is_some_of o x ≡ true → o ≡ some x
is_some_of-eq none x h = cc
is_some_of-eq (some y) x h = ground arith

and_left : (a b : Bool) → (a && b) ≡ true → a ≡ true
and_left a b h = ground arith

and_right : (a b : Bool) → (a && b) ≡ true → b ≡ true
and_right a b h = ground arith

IsPrinted-byte : (x : ℕ) → x < 256 → IsPrinted x
IsPrinted-byte x h = split_table (all_below-elim 256 _ x h octet_table)
  where
    split_table :
        (is_some_of (octet (itoa x)) x
            && (lacks b'.' (itoa x)
                && (lacks b'/' (itoa x) && (lacks b';' (itoa x) && lacks b':' (itoa x)))))
          ≡ true
        → IsPrinted x
    split_table t =
        let t1 = and_right (is_some_of (octet (itoa x)) x) _ t in
        let t2 = and_right (lacks b'.' (itoa x)) _ t1 in
        let t3 = and_right (lacks b'/' (itoa x)) _ t2 in
        record {
          read = is_some_of-eq _ x (and_left (is_some_of (octet (itoa x)) x) _ t);
          no_dot = lacks-Lacks b'.' _ (and_left (lacks b'.' (itoa x)) _ t1);
          no_slash = lacks-Lacks b'/' _ (and_left (lacks b'/' (itoa x)) _ t2);
          no_semicolon = lacks-Lacks b';' _ (and_left (lacks b';' (itoa x)) _ t3);
          no_colon = lacks-Lacks b':' _ (and_right (lacks b';' (itoa x)) _ t3);
        }

-- The four bytes of an address.
abbrev byte3 : ℕ → ℕ
byte3 n = n / 2 ^ 24 % 256

abbrev byte2 : ℕ → ℕ
byte2 n = n / 2 ^ 16 % 256

abbrev byte1 : ℕ → ℕ
byte1 n = n / 2 ^ 8 % 256

abbrev byte0 : ℕ → ℕ
byte0 n = n % 256

printed : (n : ℕ) → List Bytes
printed n = itoa (byte3 n) ∷ itoa (byte2 n) ∷ itoa (byte1 n) ∷ itoa (byte0 n) ∷ []

module _ (n : ℕ) where
  p3 : IsPrinted (byte3 n)
  p3 = IsPrinted-byte _ (omega arith)

  p2 : IsPrinted (byte2 n)
  p2 = IsPrinted-byte _ (omega arith)

  p1 : IsPrinted (byte1 n)
  p1 = IsPrinted-byte _ (omega arith)

  p0 : IsPrinted (byte0 n)
  p0 = IsPrinted-byte _ (omega arith)

split-printed : (n : ℕ) → split b'.' (join b'.' (printed n)) ≡ printed n
unfolding printed
split-printed n =
    split-join b'.' _ (λ e. cc)
      ((p3 n).no_dot, ((p2 n).no_dot, ((p1 n).no_dot, ((p0 n).no_dot, tt))))

four_parts :
    (a b c d : Bytes) {w x y z : ℕ}
    → octet a ≡ some w
    → octet b ≡ some x
    → octet c ≡ some y
    → octet d ≡ some z
    → four (a ∷ b ∷ c ∷ d ∷ []) ≡ some (w * 2 ^ 24 + x * 2 ^ 16 + y * 2 ^ 8 + z)
four_parts a b c d ha hb hc hd = ground arith

four-printed : (n : ℕ) → n < 2 ^ 32 → four (printed n) ≡ some n
unfolding printed
four-printed n h =
    four_parts _ _ _ _ (p3 n).read (p2 n).read (p1 n).read (p0 n).read ∙ ap some (omega arith)

pub parse_dotted-dotted : (n : ℕ) → n < 2 ^ 32 → parse_dotted (dotted n) ≡ some n
unfolding parse_dotted dotted printed
parse_dotted-dotted n h = rw split-printed (four-printed n h)

pub split-dotted :
    (n : ℕ)
    → split b'.' (dotted n) ≡ itoa (byte3 n) ∷ itoa (byte2 n) ∷ itoa (byte1 n) ∷ itoa (byte0 n) ∷ []
unfolding dotted printed
split-dotted n = split-printed n

-- A byte that the four parts and the dot lack does not stand in the address.
join4-Lacks :
    (b : ℕ) (w x y z : Bytes)
    → b ≢ b'.'
    → Lacks b w
    → Lacks b x
    → Lacks b y
    → Lacks b z
    → Lacks b (join b'.' (w ∷ x ∷ y ∷ z ∷ []))
unfolding join
join4-Lacks b w x y z h hw hx hy hz =
    All-append _ w _ hw (dot, All-append _ x _ hx (dot, All-append _ y _ hy (dot, hz)))
  where
    dot : b'.' ≢ b
    dot e = h (sym e)

pub dotted-Lacks-slash : (n : ℕ) → Lacks b'/' (dotted n)
unfolding dotted
dotted-Lacks-slash n =
    join4-Lacks b'/' _ _ _ _ (omega arith) (p3 n).no_slash (p2 n).no_slash (p1 n).no_slash
      (p0 n).no_slash

pub dotted-Lacks-semicolon : (n : ℕ) → Lacks b';' (dotted n)
unfolding dotted
dotted-Lacks-semicolon n =
    join4-Lacks b';' _ _ _ _ (omega arith) (p3 n).no_semicolon (p2 n).no_semicolon
      (p1 n).no_semicolon (p0 n).no_semicolon

kind-append : (p s : Bytes) → Lacks b'.' p → Lacks b':' p → kind (p ++ b'.' ∷ s) ≡ dots
unfolding kind
kind-append [] s h k = ground arith
kind-append (c ∷ p) s (hc, h) (kc, k) = ground (arith, kind-append p s h k)

kind-dotted : (n : ℕ) → kind (dotted n) ≡ dots
unfolding dotted join
kind-dotted n = kind-append (itoa (byte3 n)) _ (p3 n).no_dot (p3 n).no_colon

module _ ⦃n6 : Notation6⦄ where
  -- Every IPv4 address is read back from its print.
  pub parse_ip-dotted : (n : ℕ) → n < 2 ^ 32 → parse_ip (dotted n) ≡ some (v4 n)
  unfolding parse_ip
  parse_ip-dotted n h = ground (arith, kind-dotted n, parse_dotted-dotted n h)

-- The text before the slash has none.
pub cut_slash-append : (p s : Bytes) → Lacks b'/' p → cut_slash (p ++ b'/' ∷ s) ≡ some (p, s)
unfolding cut_slash
cut_slash-append [] s h = ground arith
cut_slash-append (c ∷ p) s (hc, h) = ground (arith, cut_slash-append p s h)

ones_table : all_below 33 (λ x. is_some_of (dtoi (itoa x)) x) ≡ true
unfolding all_below dtoi itoa
ones_table = refl

pub dtoi-itoa : (x : ℕ) → x ≤ 32 → dtoi (itoa x) ≡ some x
dtoi-itoa x h = is_some_of-eq _ x (all_below-elim 33 _ x (omega arith) ones_table)

module _ ⦃n6 : Notation6⦄ where
  -- An address and a length, printed with a slash between them, are read back.
  pub parse_cidr-dotted :
      (n ones : ℕ)
      → n < 2 ^ 32
      → ones ≤ 32
      → parse_cidr (dotted n ++ b'/' ∷ itoa ones) ≡ some (v4 n, network (v4 n) ones)
  unfolding parse_cidr
  parse_cidr-dotted n ones h le =
      rw
        (
          cut_slash-append (dotted n) (itoa ones) (dotted-Lacks-slash n),
          parse_ip-dotted n h,
          dtoi-itoa ones le,
        )
        (ground arith)

pub itoa-Lacks-slash : (x : ℕ) → x < 256 → Lacks b'/' (itoa x)
itoa-Lacks-slash x h = (IsPrinted-byte x h).no_slash

pub itoa-Lacks-semicolon : (x : ℕ) → x < 256 → Lacks b';' (itoa x)
itoa-Lacks-semicolon x h = (IsPrinted-byte x h).no_semicolon
