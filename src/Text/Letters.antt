-- ===== src/Text/Letters.antt =====
-- strings.ToLower and strings.ToUpper, as far as a comparison with an ASCII text can tell: the
-- letters whose image is an ASCII letter are mapped, all others are kept.
use c_ray.Prelude.{if◌then◌else◌, leb, map, ℕ, ◌&&◌, ◌+◌, ◌-◌, ◌==◌}
use c_ray.Text.Basic.{Text}

unfoldable pub lower_char : ℕ → ℕ
lower_char c =
    if leb b'A' c && leb c b'Z'
    then c + 32
    else if c == 0x212a
    then b'k'
    else if c == 0x130
    then b'i'
    else c

unfoldable pub to_lower : Text → Text
unfolding lower_char
to_lower = map lower_char

unfoldable pub upper_char : ℕ → ℕ
upper_char c =
    if leb b'a' c && leb c b'z'
    then c - 32
    else if c == 0x131
    then b'I'
    else if c == 0x17f
    then b'S'
    else c

unfoldable pub to_upper : Text → Text
unfolding upper_char
to_upper = map upper_char
