-- ===== src/Sysinfo/Status/Memory.antt =====
-- The memory sizes in /proc/[pid]/status.
use mathlib.Core.List.{foldl, foldl-append}
use c_ray.Files.{scan_lines}
use c_ray.Prelude.{
  All, List, Option-cases, [], ap, arith, inl, inr, none, refl, some, ℕ, ◌%◌, ◌*◌, ◌++◌, ◌<◌, ◌^◌,
  ◌∙◌, ◌∷◌, ◌≡◌, ◌≢◌,
}
use c_ray.Sysinfo.Status.{
  memory_size, parse_memory_size, read_status, status_entry, status_line, unit_is_kb,
}
use c_ray.Sysinfo.Types.{Process}
use c_ray.Text.Basic.{Text, codes, text_eq, text_eq_iff}
use c_ray.Text.Fields.{fields, fields-IsBlank, fields-append, fields-trim_space}
use c_ray.Text.Letters.{to_lower}
use c_ray.Text.Number.{itoa}
use c_ray.Text.Number.RoundTrip.{itoa-IsWord, parse_uint-itoa}
use c_ray.Text.Split.{cut, cut-append, split_2}
use c_ray.Text.Trim.{IsBlank, is_space, trim_space, trim_space-IsSolid}

-- "VmRSS:", white space, the number and "kB", as the kernel prints it.
abbrev pub vm_line : Text → Text → ℕ → Text
vm_line key blanks n = key ++ b':' ∷ (blanks ++ (itoa n ++ codes " kB"))

memory_size-kb :
    (n : ℕ) → n < 2 ^ 64 → memory_size (itoa n ∷ fields (codes "kB")) ≡ some ((n * 1024) % 2 ^ 64)
unfolding memory_size unit_is_kb fields is_space text_eq to_lower
memory_size-kb n lt = rw (parse_uint-itoa 64 n (omega arith), memory_size)

parse_memory_size-itoa :
    (blanks : Text) (n : ℕ)
    → IsBlank blanks
    → n < 2 ^ 64
    → parse_memory_size (trim_space (blanks ++ (itoa n ++ codes " kB")))
      ≡ some ((n * 1024) % 2 ^ 64)
unfolding parse_memory_size
parse_memory_size-itoa blanks n h lt =
    ap memory_size (
      fields-trim_space (blanks ++ (itoa n ++ codes " kB"))
      ∙ fields-IsBlank blanks (itoa n ++ codes " kB") h
      ∙ fields-append (itoa n) (codes "kB") 32 (itoa-IsWord n) (unfold is_space in refl))
    ∙ memory_size-kb n lt

-- The key of a line of the file, as the loop of readStatus reads it.
abbrev pub line_key : Text → Text
line_key line = elim (split_2 b':' line) [ none ↦ [] | some (k, v) ↦ trim_space k ]

module _ {V : Type 0} where
  status_entry-other :
      (key value : Text) (p : Process V)
      → key ≢ codes "VmRSS"
      → (status_entry key value p).memory_rss ≡ p.memory_rss
  unfolding status_entry
  status_entry-other key value p h = ground (arith, text_eq_iff key (codes "VmRSS"))

  -- A line with another key leaves the resident size alone.
  status_line-other :
      (p : Process V) (line : Text)
      → line_key line ≢ codes "VmRSS"
      → (status_line p line).memory_rss ≡ p.memory_rss
  unfolding status_line
  status_line-other p line h = elim (Option-cases (cut b':' line)) [
    | inl e ↦ rw (e, status_line)
    | inr ((k, v), e) ↦
        rw (e, status_line)
          (status_entry-other (trim_space k) (trim_space v) p (rw (e, line_key) at h))
  ]

  foldl-other :
      (lines : List Text) (p : Process V)
      → All (λ l. line_key l ≢ codes "VmRSS") lines
      → (foldl status_line p lines).memory_rss ≡ p.memory_rss
  foldl-other [] p _ = refl
  foldl-other (l ∷ lines) p (h, hs) =
      foldl-other lines (status_line p l) hs ∙ status_line-other p l h

  status_line-vm_line :
      (p : Process V) (blanks : Text) (n : ℕ)
      → IsBlank blanks
      → n < 2 ^ 64
      → (status_line p (vm_line (codes "VmRSS") blanks n)).memory_rss ≡ (n * 1024) % 2 ^ 64
  unfolding status_line
  status_line-vm_line p blanks n h lt =
      rw
        (
          cut-append b':' (codes "VmRSS") (blanks ++ (itoa n ++ codes " kB")) (omega arith),
          status_line,
        )
        (ap (λ k. (status_entry k (trim_space (blanks ++ (itoa n ++ codes " kB"))) p).memory_rss)
            vm_key
          ∙ vm_value)
    where
      vm_key : trim_space (codes "VmRSS") ≡ codes "VmRSS"
      vm_key =
          trim_space-IsSolid (codes "VmRSS")
            (unfold is_space in (refl, (refl, (refl, (refl, (refl, tt))))))

      vm_value :
          (status_entry
            (codes "VmRSS")
            (trim_space (blanks ++ (itoa n ++ codes " kB")))
            p).memory_rss
          ≡ (n * 1024) % 2 ^ 64
      vm_value = unfold status_entry text_eq in rw (parse_memory_size-itoa blanks n h lt)

  -- readStatus takes the resident size from the last VmRSS line of the file, which has blanks and
  -- a number below 2^64 in kB: it is the number of bytes, modulo 2^64.
  pub read_status-memory_rss :
      (p : Process V) (content : Text) (before after : List Text) (blanks : Text) (n : ℕ)
      → scan_lines content ≡ before ++ vm_line (codes "VmRSS") blanks n ∷ after
      → All (λ l. line_key l ≢ codes "VmRSS") after
      → IsBlank blanks
      → n < 2 ^ 64
      → (read_status content p).memory_rss ≡ (n * 1024) % 2 ^ 64
  unfolding read_status
  read_status-memory_rss p content before after blanks n e h hb lt =
      ap (λ ls. (foldl status_line p ls).memory_rss) e
      ∙ ap (λ (q : Process V). q.memory_rss)
          (foldl-append status_line p before (vm_line (codes "VmRSS") blanks n ∷ after))
      ∙ foldl-other after
          (status_line (foldl status_line p before) (vm_line (codes "VmRSS") blanks n)) h
      ∙ status_line-vm_line (foldl status_line p before) blanks n hb lt
