-- ===== src/Net/Decimal.antt =====
-- Decimal numbers, as `strconv` and `net` print and read them.
use my_cni.Prelude.{
  ℕ, zero, suc, ◌+◌, ◌-◌, ◌*◌, ◌/◌, ◌%◌, ◌^◌, Bool, true, false, ◌&&◌, [], ◌∷◌, Option, none, some,
  ltb, leb, ◌==◌, if◌then◌else◌, length,
}
use my_cni.Text.{Bytes}

-- A number has fewer digits than the fuel `suc n`.
digits_of : ℕ → ℕ → Bytes → Bytes
digits_of zero n out = out
digits_of (suc fuel) n out =
    let rest = digits_of fuel (n / 10) ((b'0' + n % 10) ∷ out) in
    if ltb n 10 then (b'0' + n) ∷ out else rest

-- `strconv.Itoa(n)` for a number that is not negative.
unfoldable pub itoa : ℕ → Bytes
unfolding digits_of
itoa n = digits_of (suc n) n []

is_digit : ℕ → Bool
is_digit c = leb b'0' c && leb c b'9'

pub data Scan : Type 0 where
  number : ℕ → Scan
  syntax range : Scan

-- The loop of `strconv.ParseUint` at base 10 and 64 bits.
scan : ℕ → Bytes → Scan
unfolding is_digit
scan n [] = number n
scan n (c ∷ s) =
    let rest = scan (n * 10 + (c - b'0')) s in
    if is_digit c then (if ltb (n * 10 + (c - b'0')) (2 ^ 64) then rest else range) else syntax

scan_some : Bytes → Scan
unfolding scan
scan_some [] = syntax
scan_some (c ∷ s) = scan 0 (c ∷ s)

positive : Scan → ℕ × Bool
positive (number n) = if ltb n (2 ^ 63) then (n, true) else (2 ^ 63 - 1, false)
positive syntax = (0, false)
positive range = (2 ^ 63 - 1, false)

negative : Scan → ℕ × Bool
negative (number n) = if leb n (2 ^ 63) then ((2 ^ 64 - n) % 2 ^ 64, true) else (2 ^ 63, false)
negative syntax = (0, false)
negative range = (2 ^ 63, false)

-- `strconv.Atoi(s)`: the 64 bits of the result, and whether there was no error.
unfoldable pub atoi : Bytes → ℕ × Bool
unfolding scan_some positive negative
atoi [] = (0, false)
atoi (c ∷ s) =
    if c == b'-'
    then negative (scan_some s)
    else if c == b'+'
    then positive (scan_some s)
    else positive (scan_some (c ∷ s))

value : ℕ → Bytes → Option ℕ
unfolding is_digit
value n [] = some n
value n (c ∷ s) = let rest = value (n * 10 + (c - b'0')) s in if is_digit c then rest else none

-- One part of a dotted address: one to three digits, no leading zero, at most 255.
unfoldable pub octet : Bytes → Option ℕ
unfolding value
octet [] = none
octet (c ∷ s) =
    if c == b'0' && ltb 0 (length s)
    then none
    else elim (value 0 (c ∷ s)) [ none ↦ none | some n ↦ if leb n 255 then some n else none ]

-- The length of a mask: digits, below 0xffffff after each of them.
big : ℕ → Bytes → Option ℕ
unfolding is_digit
big n [] = some n
big n (c ∷ s) =
    let rest = big (n * 10 + (c - b'0')) s in
    if is_digit c && ltb (n * 10 + (c - b'0')) 0xffffff then rest else none

unfoldable pub dtoi : Bytes → Option ℕ
unfolding big
dtoi [] = none
dtoi (c ∷ s) = big 0 (c ∷ s)
