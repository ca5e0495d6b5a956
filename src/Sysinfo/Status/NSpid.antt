-- ===== src/Sysinfo/Status/NSpid.antt =====
-- ReadNSpid reads back the line that the kernel prints.
use c_ray.Prelude.{All, List, [], ap, arith, false, map, refl, ℕ, ◌++◌, ◌<◌, ◌^◌, ◌∙◌, ◌∷◌, ◌≡◌}
use c_ray.Prelude.Int.{pos}
use c_ray.Result.{ok}
use c_ray.Sysinfo.Status.{nspid_line, parse_pids, read_nspid}
use c_ray.Text.Basic.{Text, codes, has_prefix}
use c_ray.Text.Fields.{fields-cons, fields-join}
use c_ray.Text.Number.{itoa}
use c_ray.Text.Number.Lists.{map-itoa-IsWord}
use c_ray.Text.Number.RoundTrip.{parse_int-itoa}
use c_ray.Text.Split.{cut-append, join}
use c_ray.Text.Trim.{is_space}

-- "NSpid:" and the process numbers of the nested namespaces, each behind a tab.
abbrev pub nspid_text : List ℕ → Text
nspid_text pids = codes "NSpid:" ++ b'\t' ∷ join (codes "\t") (map itoa pids)

parse_pids-itoa :
    (pids : List ℕ) → All (λ n. n < 2 ^ 63) pids → parse_pids (map itoa pids) ≡ ok (map pos pids)
unfolding parse_pids
parse_pids-itoa [] h = refl
parse_pids-itoa (n ∷ pids) (h, hs) = rw (parse_int-itoa n h, parse_pids-itoa pids hs)

nspid_line-nspid_text :
    (pids : List ℕ) → All (λ n. n < 2 ^ 63) pids → nspid_line (nspid_text pids) ≡ ok (map pos pids)
unfolding nspid_line
nspid_line-nspid_text pids h =
    rw
      (
        cut-append b':' (codes "NSpid") (b'\t' ∷ join (codes "\t") (map itoa pids)) (omega arith),
        nspid_line,
      )
      (ap parse_pids (
          fields-cons b'\t' (join (codes "\t") (map itoa pids)) (unfold is_space in refl)
          ∙ fields-join b'\t' (map itoa pids) (unfold is_space in refl) (map-itoa-IsWord pids))
        ∙ parse_pids-itoa pids h)

-- ReadNSpid gives the numbers of the first NSpid line, outermost namespace first, where they are
-- below 2^63.
pub read_nspid-nspid_text :
    (before after : List Text) (pids : List ℕ)
    → All (λ line. has_prefix (codes "NSpid:") line ≡ false) before
    → All (λ n. n < 2 ^ 63) pids
    → read_nspid (before ++ nspid_text pids ∷ after) ≡ ok (map pos pids)
unfolding read_nspid
read_nspid-nspid_text [] after pids _ h = nspid_line-nspid_text pids h
read_nspid-nspid_text (line ∷ before) after pids (hl, hb) h =
    rw hl (read_nspid-nspid_text before after pids hb h)
