-- ===== src/Sysinfo/NetDev.antt =====
-- skipNetInterface and ReadNetDev of pkg/sysinfo/procfs.go.
pub mod Interfaces
use c_ray.Files.{Files, scan_lines}
use c_ray.Prelude.{
  Bool, List, Option, [], drop, false, get_or, if◌then◌else◌, length, ltb, none, not, some, true, ℕ,
  ◌||◌, ◌∷◌,
}
use c_ray.Prelude.Int.{ℤ}
use c_ray.Sysinfo.Types.{NetworkStats}
use c_ray.Text.Basic.{Text, codes, has_prefix, text_eq}
use c_ray.Text.Fields.{fields}
use c_ray.Text.Number.{itoa_int, parse_uint, value_of}
use c_ray.Text.Path.{join_path}
use c_ray.Text.Split.{split_2}
use c_ray.Text.Trim.{trim_space}

-- The map kernelDefaults.
abbrev pub kernel_defaults : List Text
kernel_defaults =
    codes "tunl0"
    ∷ codes "gre0"
    ∷ codes "gretap0"
    ∷ codes "erspan0"
    ∷ codes "ip_vti0"
    ∷ codes "ip6_vti0"
    ∷ codes "ip6tnl0"
    ∷ codes "ip6gre0"
    ∷ codes "ip6gretap0"
    ∷ codes "ip6erspan0"
    ∷ codes "sit0"
    ∷ []

unfoldable pub is_listed : Text → List Text → Bool
is_listed name [] = false
is_listed name (n ∷ ns) = text_eq name n || is_listed name ns

-- The file /proc/[pid]/root/sys/class/net/[name]/type.
abbrev pub type_path : Text → ℤ → Text → Text
type_path root pid name = join_path (
    root
    ∷ itoa_int pid
    ∷ codes "root"
    ∷ codes "sys"
    ∷ codes "class"
    ∷ codes "net"
    ∷ name
    ∷ codes "type"
    ∷ [])

unfoldable pub skip_net_interface : Files → Text → ℤ → Text → Bool
skip_net_interface fs root pid name =
    if text_eq name (codes "lo")
    then true
    else if has_prefix (codes "veth") name || has_prefix (codes "virbr") name
    then true
    else if is_listed name kernel_defaults
    then true
    else elim (fs.read_file (type_path root pid name)) [
      | none ↦ false
      | some text ↦ not (text_eq (trim_space text) (codes "1"))
    ]

module _ {V : Type 0} (zero_rate : V) where
  -- ns.F, _ = strconv.ParseUint(fields[i], 10, 64).
  abbrev pub counter : List Text → ℕ → ℕ
  counter ws i = value_of 0 (parse_uint 10 64 (get_or ws i []))

  -- The statistics of one line; `get_or` reads in bounds, since there are 16 fields at least.
  abbrev pub line_stats : Text → List Text → NetworkStats V
  line_stats iface ws = record {
    interface = iface;
    rx_bytes = counter ws 0;
    tx_bytes = counter ws 8;
    rx_packets = counter ws 1;
    tx_packets = counter ws 9;
    rx_errors = counter ws 2;
    tx_errors = counter ws 10;
    rx_dropped = counter ws 3;
    tx_dropped = counter ws 11;
    rx_bytes_per_sec = zero_rate;
    tx_bytes_per_sec = zero_rate;
  }

  -- One round of the loop behind the header lines, with the test for interfaces to be skipped.
  unfoldable pub net_dev_line : (Text → Bool) → Text → Option (NetworkStats V)
  net_dev_line skip line = elim (split_2 b':' line) [
    | none ↦ none
    | some (name, rest) ↦
        if skip (trim_space name)
        then none
        else if ltb (length (fields rest)) 16
        then none
        else some (line_stats (trim_space name) (fields rest))
  ]

  unfoldable pub net_dev_lines : (Text → Bool) → List Text → List (NetworkStats V)
  unfolding net_dev_line
  net_dev_lines skip [] = []
  net_dev_lines skip (line ∷ lines) = elim (net_dev_line skip line) [
    | none ↦ net_dev_lines skip lines
    | some ns ↦ ns ∷ net_dev_lines skip lines
  ]

  -- ReadNetDev, on the text of /proc/[pid]/net/dev.
  unfoldable pub read_net_dev : Files → Text → ℤ → Text → List (NetworkStats V)
  unfolding net_dev_lines skip_net_interface
  read_net_dev fs root pid content =
      net_dev_lines (skip_net_interface fs root pid) (drop 2 (scan_lines content))
