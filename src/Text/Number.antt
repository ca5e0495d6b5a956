-- ===== src/Text/Number.antt =====
-- The package strconv: ParseUint, ParseInt, Atoi and Itoa, and the results that they return.
pub mod RoundTrip
pub mod Lists
use c_ray.Prelude.{
  Bool, Option, [], false, if◌then◌else◌, leb, ltb, none, some, suc, true, zero, ℕ, ◌%◌, ◌&&◌, ◌*◌,
  ◌+◌, ◌-◌, ◌/◌, ◌==◌, ◌^◌, ◌∷◌,
}
use c_ray.Prelude.Int.{negsuc, pos, ℤ}
use c_ray.Text.Basic.{Text}
use c_ray.Text.Path.{base}

-- A result with its error: on a syntax error the value is 0, on a range error it is the nearest
-- value of the type.
pub data Parsed {ℓ} (A : Type ℓ) : Type ℓ where
  parsed : A → Parsed A
  syntax_error : Parsed A
  range_error : A → Parsed A

-- `if v, err := …; err == nil`.
abbrev pub if_parsed {ℓ} : {A : Type ℓ} → Parsed A → Option A
if_parsed (parsed a) = some a
if_parsed syntax_error = none
if_parsed (range_error a) = none

-- `v, _ := …`: the value, its error ignored; `zero_value` is what a syntax error leaves.
abbrev pub value_of {ℓ} : {A : Type ℓ} → A → Parsed A → A
value_of zero_value (parsed a) = a
value_of zero_value syntax_error = zero_value
value_of zero_value (range_error a) = a

-- The value of a digit, up to base 36.
unfoldable pub digit : ℕ → Option ℕ
digit c =
    if leb b'0' c && leb c b'9'
    then some (c - b'0')
    else if leb b'a' c && leb c b'z'
    then some (c - b'a' + 10)
    else if leb b'A' c && leb c b'Z'
    then some (c - b'A' + 10)
    else none

-- The loop of ParseUint: `max` is the largest value of the type.
unfoldable pub scan_uint : ℕ → ℕ → ℕ → Text → Parsed ℕ
unfolding digit
scan_uint base max n [] = parsed n
scan_uint base max n (c ∷ s) = elim (digit c) [
  | none ↦ syntax_error
  | some d ↦ elim (leb base d) [
    | true ↦ syntax_error
    | false ↦ elim (ltb max (n * base + d)) [
      | true ↦ range_error max
      | false ↦ scan_uint base max (n * base + d) s
    ]
  ]
]

-- strconv.ParseUint(s, base, bits), for a base from 2 to 36.
unfoldable pub parse_uint : ℕ → ℕ → Text → Parsed ℕ
unfolding scan_uint
parse_uint base bits [] = syntax_error
parse_uint base bits (c ∷ s) = scan_uint base (2 ^ bits - 1) 0 (c ∷ s)

-- -n.
abbrev pub neg : ℕ → ℤ
neg zero = pos 0
neg (suc n) = negsuc n

-- The magnitude that follows the sign, bounded by the cutoff 2^63.
unfoldable pub signed : Bool → Parsed ℕ → Parsed ℤ
signed minus syntax_error = syntax_error
signed true (parsed n) = if ltb (2 ^ 63) n then range_error (neg (2 ^ 63)) else parsed (neg n)
signed true (range_error n) = range_error (neg (2 ^ 63))
signed false (parsed n) = if leb (2 ^ 63) n then range_error (pos (2 ^ 63 - 1)) else parsed (pos n)
signed false (range_error n) = range_error (pos (2 ^ 63 - 1))

-- strconv.ParseInt(s, 10, 64), which is strconv.Atoi(s) where an int has 64 bits.
unfoldable pub parse_int : Text → Parsed ℤ
unfolding parse_uint signed
parse_int [] = syntax_error
parse_int (c ∷ s) =
    if c == b'-'
    then signed true (parse_uint 10 64 s)
    else if c == b'+'
    then signed false (parse_uint 10 64 s)
    else signed false (parse_uint 10 64 (c ∷ s))

abbrev pub atoi : Text → Parsed ℤ
atoi = parse_int

-- The digits of `n` in front of `out`; the fuel bounds their number.
unfoldable pub digits : ℕ → ℕ → Text → Text
digits zero n out = out
digits (suc fuel) n out =
    let out' = (b'0' + n % 10) ∷ out in
    elim (n / 10 == 0) [ true ↦ out' | false ↦ digits fuel (n / 10) out' ]

-- strconv.Itoa(n), for n ≥ 0.
unfoldable pub itoa : ℕ → Text
unfolding digits
itoa n = digits (suc n) n []

-- strconv.Itoa(n).
unfoldable pub itoa_int : ℤ → Text
unfolding itoa
itoa_int (pos n) = itoa n
itoa_int (negsuc n) = b'-' ∷ itoa (suc n)
