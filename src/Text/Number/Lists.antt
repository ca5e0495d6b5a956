-- ===== src/Text/Number/Lists.antt =====
-- Lists of numbers, printed and read back.
use c_ray.Prelude.{
  All, List, [], ap, arith, get_or, length, map, refl, suc, zero, ℕ, ◌<◌, ◌^◌, ◌∷◌, ◌≡◌,
}
use c_ray.Text.Fields.{IsWord}
use c_ray.Text.Number.{itoa, parse_uint, value_of}
use c_ray.Text.Number.RoundTrip.{itoa-IsWord, parse_uint-itoa}

pub map-itoa-IsWord : (ns : List ℕ) → All IsWord (map itoa ns)
map-itoa-IsWord [] = tt
map-itoa-IsWord (n ∷ ns) = (itoa-IsWord n, map-itoa-IsWord ns)

pub length-map-itoa : (ns : List ℕ) → length (map itoa ns) ≡ length ns
length-map-itoa [] = refl
length-map-itoa (n ∷ ns) = ap suc (length-map-itoa ns)

-- The number at a place, read from the text at that place; out of range both are 0.
pub value-get_or-itoa :
    (ns : List ℕ) (i : ℕ)
    → All (λ n. n < 2 ^ 64) ns
    → value_of 0 (parse_uint 10 64 (get_or (map itoa ns) i [])) ≡ get_or ns i 0
value-get_or-itoa [] i h = unfold parse_uint in refl
value-get_or-itoa (n ∷ ns) zero (h, hs) = ap (value_of 0) (parse_uint-itoa 64 n (omega arith))
value-get_or-itoa (n ∷ ns) (suc i) (h, hs) = value-get_or-itoa ns i hs
