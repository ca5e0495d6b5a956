-- ===== src/Sysinfo/Listening.antt =====
-- parseNetListening and ReadListeningPorts of pkg/sysinfo/procfs.go.
pub mod Ports
use c_ray.Files.{Files, scan_lines}
use c_ray.Prelude.{
  Bool, List, Option, [], false, get_or, if◌then◌else◌, length, ltb, map, none, not, some, ℕ, ◌++◌,
  ◌==◌, ◌||◌, ◌∷◌,
}
use c_ray.Text.Basic.{Text, after_last, codes, has_prefix, text_eq, trim_suffix}
use c_ray.Text.Fields.{fields}
use c_ray.Text.Letters.{to_upper}
use c_ray.Text.Number.{digits, if_parsed, itoa, parse_uint}
use c_ray.Text.Path.{join_path}

-- strconv.ParseUint(localAddr[colon+1:], 16, 16), where it gives a port that is not 0.
unfoldable pub port_of : Text → Option ℕ
port_of digits = elim (if_parsed (parse_uint 16 16 digits)) [
  | none ↦ none
  | some port ↦ if port == 0 then none else some port
]

-- One line behind the header: the port, if the socket is in the target state.
unfoldable pub listening_port : Text → List Text → Option ℕ
unfolding port_of after_last text_eq
listening_port target_state ws =
    if ltb (length ws) 4
    then none
    else if not (text_eq (to_upper (get_or ws 3 [])) target_state)
    then none
    else elim (after_last b':' (get_or ws 1 [])) [ none ↦ none | some digits ↦ port_of digits ]

-- fmt.Sprintf("%s:%d", protoBase, port).
abbrev pub port_text : Text → ℕ → Text
port_text proto_base port = proto_base ++ b':' ∷ itoa port

unfoldable pub listening_ports : Text → Text → List Text → List Text
listening_ports target_state proto_base [] = []
listening_ports target_state proto_base (line ∷ lines) =
    elim (listening_port target_state (fields line)) [
      | none ↦ listening_ports target_state proto_base lines
      | some port ↦ port_text proto_base port ∷ listening_ports target_state proto_base lines
    ]

-- The first line is the header.
abbrev pub behind_header : List Text → List Text
behind_header [] = []
behind_header (line ∷ lines) = lines

-- parseNetListening, on the text of the file.
unfoldable pub parse_net_listening : Text → Text → List Text
unfolding listening_ports listening_port has_prefix trim_suffix scan_lines fields to_upper itoa
parse_net_listening proto content =
    listening_ports (if has_prefix (codes "udp") proto then codes "07" else codes "0A")
      (trim_suffix (codes "6") proto) (behind_header (scan_lines content))

-- `_, dup := seen[p]`, on the keys of `seen`.
unfoldable pub is_seen : Text → List Text → Bool
is_seen p [] = false
is_seen p (q ∷ seen) = text_eq q p || is_seen p seen

-- The inner loop of ReadListeningPorts. The keys of `seen` are the ports appended so far, so one
-- list stands for both.
unfoldable pub add_ports : List Text → List Text → List Text
unfolding is_seen
add_ports ports [] = ports
add_ports ports (p ∷ ps) = add_ports (if is_seen p ports then ports else ports ++ p ∷ []) ps

-- The outer loop, over the parsed files; none is a file that cannot be read.
unfoldable pub collect_ports : List Text → List (Option (List Text)) → List Text
unfolding add_ports
collect_ports ports [] = ports
collect_ports ports (none ∷ files) = collect_ports ports files
collect_ports ports (some ps ∷ files) = collect_ports (add_ports ports ps) files

abbrev pub parsed_file : Files → Text → Text → Option (List Text)
parsed_file fs net_dir proto = elim (fs.read_file (join_path (net_dir ∷ proto ∷ []))) [
  | none ↦ none
  | some content ↦ some (parse_net_listening proto content)
]

-- The four files of the directory /proc/[pid]/net.
abbrev pub net_files : Files → Text → List (Option (List Text))
net_files fs net_dir =
    map (parsed_file fs net_dir) (codes "tcp" ∷ codes "tcp6" ∷ codes "udp" ∷ codes "udp6" ∷ [])

-- ReadListeningPorts, for the directory /proc/[pid]/net.
unfoldable pub read_listening_ports : Files → Text → List Text
unfolding collect_ports parse_net_listening join_path
read_listening_ports fs net_dir = collect_ports [] (net_files fs net_dir)
