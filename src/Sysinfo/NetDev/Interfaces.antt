-- ===== src/Sysinfo/NetDev/Interfaces.antt =====
-- Which interfaces ReadNetDev reports, and that it reads back a line of /proc/[pid]/net/dev.
use c_ray.Files.{Files, scan_lines}
use c_ray.Prelude.{
  All, Bool, List, Option-cases, [], ap, arith, drop, false, get_or, inl, inr, length, map, refl,
  some, ℕ, ◌++◌, ◌<◌, ◌^◌, ◌∙◌, ◌∷◌, ◌≡◌, ◌≢◌,
}
use c_ray.Prelude.Int.{ℤ}
use c_ray.Sysinfo.NetDev.{
  is_listed, kernel_defaults, line_stats, net_dev_line, net_dev_lines, read_net_dev,
  skip_net_interface, type_path,
}
use c_ray.Sysinfo.Types.{NetworkStats}
use c_ray.Text.Basic.{Lacks, Lacks-append, Text, codes, has_prefix, text_eq_iff}
use c_ray.Text.Fields.{fields, fields-cons, fields-join}
use c_ray.Text.Number.{itoa}
use c_ray.Text.Number.Lists.{length-map-itoa, map-itoa-IsWord, value-get_or-itoa}
use c_ray.Text.Split.{cut-append, join}
use c_ray.Text.Trim.{
  IsBlank, IsBlank-Lacks, IsSolid, is_space, trim_space, trim_space-IsBlank, trim_space-IsSolid,
}

module _ {V : Type 0} (zero_rate : V) where
  net_dev_line-kept :
      (skip : Text → Bool) (line : Text) (ns : NetworkStats V)
      → net_dev_line zero_rate skip line ≡ some ns
      → skip ns.interface ≡ false
  unfolding net_dev_line
  net_dev_line-kept skip line ns h = ground arith

  net_dev_lines-kept :
      (skip : Text → Bool) (lines : List Text)
      → All
          (λ (ns : NetworkStats V). skip ns.interface ≡ false)
          (net_dev_lines zero_rate skip lines)
  unfolding net_dev_lines
  net_dev_lines-kept skip [] = tt
  net_dev_lines-kept skip (line ∷ lines) = elim (Option-cases (net_dev_line zero_rate skip line)) [
    | inl e ↦ rw (e, net_dev_lines) (net_dev_lines-kept skip lines)
    | inr (ns, e) ↦
        rw (e, net_dev_lines) (net_dev_line-kept skip line ns e, net_dev_lines-kept skip lines)
  ]

  -- What the names of the reported interfaces are not, and what their device type is.
  pub record IsMonitored (fs : Files) (root : Text) (pid : ℤ) (ns : NetworkStats V) : Type 0 where
    pub not_lo : ns.interface ≢ codes "lo"
    pub not_veth : has_prefix (codes "veth") ns.interface ≡ false
    pub not_virbr : has_prefix (codes "virbr") ns.interface ≡ false
    pub not_default : is_listed ns.interface kernel_defaults ≡ false
    pub ethernet :
        (text : Text)
        → fs.read_file (type_path root pid ns.interface) ≡ some text
        → trim_space text ≡ codes "1"

  skip_net_interface-IsMonitored :
      (fs : Files) (root : Text) (pid : ℤ) (ns : NetworkStats V)
      → skip_net_interface fs root pid ns.interface ≡ false
      → IsMonitored fs root pid ns
  unfolding skip_net_interface
  skip_net_interface-IsMonitored fs root pid ns h = record {
    not_lo = ground (arith, text_eq_iff ns.interface (codes "lo"));
    not_veth = ground arith;
    not_virbr = ground arith;
    not_default = ground arith;
    ethernet = λ text e. ground (arith, text_eq_iff (trim_space text) (codes "1"));
  }

  All-IsMonitored :
      (fs : Files) (root : Text) (pid : ℤ) (stats : List (NetworkStats V))
      → All (λ (ns : NetworkStats V). skip_net_interface fs root pid ns.interface ≡ false) stats
      → All (IsMonitored fs root pid) stats
  All-IsMonitored fs root pid [] h = tt
  All-IsMonitored fs root pid (ns ∷ stats) (h, hs) =
      (skip_net_interface-IsMonitored fs root pid ns h, All-IsMonitored fs root pid stats hs)

  -- Every interface that ReadNetDev reports is none of the excluded names, and where its device type
  -- can be read it is an Ethernet device.
  pub read_net_dev-IsMonitored :
      (fs : Files) (root : Text) (pid : ℤ) (content : Text)
      → All (IsMonitored fs root pid) (read_net_dev zero_rate fs root pid content)
  unfolding read_net_dev
  read_net_dev-IsMonitored fs root pid content =
      All-IsMonitored fs root pid (read_net_dev zero_rate fs root pid content)
        (net_dev_lines-kept (skip_net_interface fs root pid) (drop 2 (scan_lines content)))

  -- A line of the file: the name behind white space, a colon, and the counters.
  abbrev pub net_line : Text → Text → List ℕ → Text
  net_line blanks name counters =
      (blanks ++ name) ++ b':' ∷ b' ' ∷ join (codes " ") (map itoa counters)

  -- The statistics that the counters stand for.
  abbrev pub counters_stats : Text → List ℕ → NetworkStats V
  counters_stats name ns = record {
    interface = name;
    rx_bytes = get_or ns 0 0;
    tx_bytes = get_or ns 8 0;
    rx_packets = get_or ns 1 0;
    tx_packets = get_or ns 9 0;
    rx_errors = get_or ns 2 0;
    tx_errors = get_or ns 10 0;
    rx_dropped = get_or ns 3 0;
    tx_dropped = get_or ns 11 0;
    rx_bytes_per_sec = zero_rate;
    tx_bytes_per_sec = zero_rate;
  }

  net_dev_line-name :
      (skip : Text → Bool) (blanks name : Text) (counters : List ℕ)
      → IsBlank blanks
      → IsSolid name
      → Lacks b':' name
      → skip name ≡ false
      → length counters ≡ 16
      → net_dev_line zero_rate skip (net_line blanks name counters)
        ≡ some (line_stats zero_rate name (map itoa counters))
  unfolding net_dev_line
  net_dev_line-name skip blanks name counters hb hn hl hs len =
      rw
        (
          cut-append b':' (blanks ++ name) (b' ' ∷ join (codes " ") (map itoa counters)) lacks,
          net_dev_line,
        )
        (ground (arith, name_read, words_read, hs, length-map-itoa counters))
    where
      lacks : Lacks b':' (blanks ++ name)
      lacks =
          Lacks-append b':' blanks name (IsBlank-Lacks b':' blanks (unfold is_space in refl) hb) hl

      name_read : trim_space (blanks ++ name) ≡ name
      name_read = trim_space-IsBlank blanks name hb ∙ trim_space-IsSolid name hn

      words_read : fields (b' ' ∷ join (codes " ") (map itoa counters)) ≡ map itoa counters
      words_read =
          fields-cons b' ' (join (codes " ") (map itoa counters)) (unfold is_space in refl)
          ∙ fields-join b' ' (map itoa counters) (unfold is_space in refl)
              (map-itoa-IsWord counters)

  line_stats-itoa :
      (name : Text) (ns : List ℕ)
      → All (λ n. n < 2 ^ 64) ns
      → line_stats zero_rate name (map itoa ns) ≡ counters_stats name ns
  line_stats-itoa name ns h = λ i. record {
    interface = name;
    rx_bytes = value-get_or-itoa ns 0 h i;
    tx_bytes = value-get_or-itoa ns 8 h i;
    rx_packets = value-get_or-itoa ns 1 h i;
    tx_packets = value-get_or-itoa ns 9 h i;
    rx_errors = value-get_or-itoa ns 2 h i;
    tx_errors = value-get_or-itoa ns 10 h i;
    rx_dropped = value-get_or-itoa ns 3 h i;
    tx_dropped = value-get_or-itoa ns 11 h i;
    rx_bytes_per_sec = zero_rate;
    tx_bytes_per_sec = zero_rate;
  }

  -- A line with 16 counters below 2^64, whose interface is not skipped and has no blank or colon
  -- in its name, gives the counters of bytes, packets, errors and drops of both directions. Blanks
  -- can stand in front of the name.
  pub net_dev_line-net_line :
      (skip : Text → Bool) (blanks name : Text) (counters : List ℕ)
      → IsBlank blanks
      → IsSolid name
      → Lacks b':' name
      → skip name ≡ false
      → length counters ≡ 16
      → All (λ n. n < 2 ^ 64) counters
      → net_dev_line zero_rate skip (net_line blanks name counters)
        ≡ some (counters_stats name counters)
  net_dev_line-net_line skip blanks name counters hb hn hl hs len h =
      net_dev_line-name skip blanks name counters hb hn hl hs len
      ∙ ap some (line_stats-itoa name counters h)
