-- ===== src/Text/Order.antt =====
-- The order of Go strings. Go compares bytes; on UTF-8 that is the order of the code points.
use c_ray.Prelude.{Bool, [], arith, false, ltb, refl, true, ◌&&◌, ◌==◌, ◌||◌, ◌∷◌, ◌≡◌}
use c_ray.Text.Basic.{Text}

-- a < b.
unfoldable pub text_ltb : Text → Text → Bool
text_ltb [] [] = false
text_ltb [] (d ∷ t) = true
text_ltb (c ∷ s) [] = false
text_ltb (c ∷ s) (d ∷ t) = ltb c d || c == d && text_ltb s t

pub text_ltb-asymmetric : (a b : Text) → text_ltb a b ≡ true → text_ltb b a ≡ false
unfolding text_ltb
text_ltb-asymmetric [] [] h = refl
text_ltb-asymmetric [] (d ∷ t) h = refl
text_ltb-asymmetric (c ∷ s) [] h = ground arith
text_ltb-asymmetric (c ∷ s) (d ∷ t) h = ground (arith, text_ltb-asymmetric s t)
