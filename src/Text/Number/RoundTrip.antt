-- ===== src/Text/Number/RoundTrip.antt =====
-- Itoa, read back by ParseUint and Atoi.
use c_ray.Prelude.{
  Bool-cases, [], ap, arith, false, inl, inr, refl, suc, sym, true, zero, ℕ, ◌%◌, ◌++◌, ◌+◌, ◌-◌,
  ◌/◌, ◌<◌, ◌==◌, ◌^◌, ◌∙◌, ◌∷◌, ◌≡◌, ◌≢◌, ◌≤◌, ◌⊎◌,
}
use c_ray.Prelude.Int.{pos}
use c_ray.Text.Basic.{Lacks, Text}
use c_ray.Text.Fields.{IsWord}
use c_ray.Text.Number.{digits, itoa, parse_int, parse_uint, parsed, scan_uint, signed}
use c_ray.Text.Trim.{IsSolid, is_space}

-- One more digit.
scan_digit :
    (max n : ℕ) (s : Text)
    → n ≤ max
    → scan_uint 10 max (n / 10) ((b'0' + n % 10) ∷ s) ≡ scan_uint 10 max n s
unfolding scan_uint
scan_digit max n s h = ground arith

scan-digits :
    (fuel max n : ℕ) (out : Text)
    → n < fuel
    → n ≤ max
    → scan_uint 10 max 0 (digits fuel n out) ≡ scan_uint 10 max n out
unfolding digits
scan-digits zero max n out h _ = absurd (omega arith)
scan-digits (suc fuel) max n out h le = elim (Bool-cases (n / 10 == 0)) [
  | inl last ↦
      rw (last, digits)
        (ap (λ k. scan_uint 10 max k ((b'0' + n % 10) ∷ out)) (zero_eq last)
          ∙ scan_digit max n out le)
  | inr more ↦
      rw (more, digits)
        (scan-digits fuel max (n / 10) ((b'0' + n % 10) ∷ out) (fuel_left more) (omega arith)
          ∙ scan_digit max n out le)
]
  where
    zero_eq : (n / 10 == 0) ≡ true → 0 ≡ n / 10
    zero_eq e = ground arith

    fuel_left : (n / 10 == 0) ≡ false → n / 10 < fuel
    fuel_left e = ground arith

-- What Itoa prints: one digit at least, and digits only.
abbrev IsDecimal : Text → Type 0
IsDecimal [] = Unit
IsDecimal (c ∷ s) = (b'0' ≤ c) × (c ≤ b'9') × IsDecimal s

digits-IsDecimal : (fuel n : ℕ) (out : Text) → IsDecimal out → IsDecimal (digits fuel n out)
unfolding digits
digits-IsDecimal zero n out h = h
digits-IsDecimal (suc fuel) n out h = elim (Bool-cases (n / 10 == 0)) [
  | inl last ↦ rw (last, digits) (omega arith, omega arith, h)
  | inr more ↦
      rw (more, digits)
        (digits-IsDecimal fuel (n / 10) ((b'0' + n % 10) ∷ out) (omega arith, omega arith, h))
]

digits-ne-nil : (fuel n : ℕ) (out : Text) → out ≢ [] → digits fuel n out ≢ []
unfolding digits
digits-ne-nil zero n out h = h
digits-ne-nil (suc fuel) n out h = elim (Bool-cases (n / 10 == 0)) [
  | inl last ↦ rw (last, digits) (λ e. cc)
  | inr more ↦ rw (more, digits) (digits-ne-nil fuel (n / 10) ((b'0' + n % 10) ∷ out) (λ e. cc))
]

itoa-ne-nil : (n : ℕ) → itoa n ≢ []
unfolding itoa digits
itoa-ne-nil n = elim (Bool-cases (n / 10 == 0)) [
  | inl last ↦ rw (last, digits) (λ e. cc)
  | inr more ↦ rw (more, digits) (digits-ne-nil n (n / 10) ((b'0' + n % 10) ∷ []) (λ e. cc))
]

itoa-IsDecimal : (n : ℕ) → IsDecimal (itoa n)
unfolding itoa
itoa-IsDecimal n = digits-IsDecimal (suc n) n [] tt

IsDecimal-IsSolid : (s : Text) → IsDecimal s → IsSolid s
IsDecimal-IsSolid [] h = tt
IsDecimal-IsSolid (c ∷ s) (lo, hi, h) = (unfold is_space in ground arith, IsDecimal-IsSolid s h)

IsDecimal-Lacks : (b : ℕ) (s : Text) → IsDecimal s → (b < b'0') ⊎ (b'9' < b) → Lacks b s
IsDecimal-Lacks b [] h out = tt
IsDecimal-Lacks b (c ∷ s) (lo, hi, h) out = (omega arith, IsDecimal-Lacks b s h out)

pub itoa-IsSolid : (n : ℕ) → IsSolid (itoa n)
itoa-IsSolid n = IsDecimal-IsSolid (itoa n) (itoa-IsDecimal n)

pub itoa-IsWord : (n : ℕ) → IsWord (itoa n)
itoa-IsWord n = (itoa-ne-nil n, itoa-IsSolid n)

pub itoa-Lacks : (b n : ℕ) → (b < b'0') ⊎ (b'9' < b) → Lacks b (itoa n)
itoa-Lacks b n = IsDecimal-Lacks b (itoa n) (itoa-IsDecimal n)

parse_uint-scan :
    (bits : ℕ) (s : Text) → s ≢ [] → parse_uint 10 bits s ≡ scan_uint 10 (2 ^ bits - 1) 0 s
unfolding parse_uint
parse_uint-scan bits [] h = absurd (h refl)
parse_uint-scan bits (c ∷ s) h = refl

-- Every number of the type is read back from its decimal print.
pub parse_uint-itoa : (bits n : ℕ) → n ≤ 2 ^ bits - 1 → parse_uint 10 bits (itoa n) ≡ parsed n
unfolding itoa scan_uint
parse_uint-itoa bits n h =
    parse_uint-scan bits (itoa n) (itoa-ne-nil n)
    ∙ scan-digits (suc n) (2 ^ bits - 1) n [] (omega arith) h

parse_int-signed :
    (s : Text) → IsDecimal s → s ≢ [] → parse_int s ≡ signed false (parse_uint 10 64 s)
unfolding parse_int
parse_int-signed [] h ne = absurd (ne refl)
parse_int-signed (c ∷ s) (lo, hi, h) ne = ground arith

-- Every non-negative int is read back from its decimal print.
pub parse_int-itoa : (n : ℕ) → n < 2 ^ 63 → parse_int (itoa n) ≡ parsed (pos n)
unfolding signed
parse_int-itoa n h =
    parse_int-signed (itoa n) (itoa-IsDecimal n) (itoa-ne-nil n)
    ∙ ap (signed false) (parse_uint-itoa 64 n (omega arith))
    ∙ ground arith

-- The first digit.
pub itoa_cons : (n : ℕ) → (c : ℕ) × (s : Text) × (itoa n ≡ c ∷ s) × (c ≤ b'9')
itoa_cons n = go (itoa n) refl (itoa-IsDecimal n) (itoa-ne-nil n)
  where
    go :
        (t : Text)
        → itoa n ≡ t
        → IsDecimal t
        → t ≢ []
        → (c : ℕ) × (s : Text) × (itoa n ≡ c ∷ s) × (c ≤ b'9')
    go [] e h ne = absurd (ne refl)
    go (c ∷ s) e h ne = (c, s, e, h.1)

-- No decimal print is a word that begins with a letter, whatever stands behind it.
pub itoa-ne_word : (n c : ℕ) (rest w : Text) → b'9' < c → itoa n ++ rest ≢ c ∷ w
itoa-ne_word n c rest w h e =
    let (d, s, p, le) = itoa_cons n in absurd (clash d (ap (λ t. t ++ rest) (sym p) ∙ e) le)
  where
    clash : (d : ℕ) {s : Text} → ◌≡◌ {A = Text} (d ∷ s) (c ∷ w) → d ≤ b'9' → ⊥
    clash d q le = ground arith
