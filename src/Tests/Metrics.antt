-- ===== src/Tests/Metrics.antt =====
-- Runs of internal/metrics/ports.go, internal/tools/registry.go and internal/exec/registry.go.
use tailkitd.Prelude.{
  ℕ, ◌≡◌, refl, true, false, Option, none, some, List, [], ◌∷◌, ◌++◌, map, arith, lookup, All, sort,
  split, cut, fields, Text, codes, str_eq, str_lt, is_space, cut_prefix, contains_byte,
}
use tailkitd.Os.{World, read_file, ok}
use tailkitd.Tools.{Tool, without_v, version_at_least, pad_parts, zeros, zero_pad, parts_at_least}
use tailkitd.Tools.Versions.{AreDigits, value, at_least, parts_of, version_at_least-at_least}
use tailkitd.Tools.Reading.{PlainNames}
use tailkitd.Exec.Index.{rebuild, lookup_command}
use tailkitd.Exec.Index.Keys.{KeyedByName, rebuild-lookup_command}
use tailkitd.Metrics.Address.{
  swap_words, decode_socket_address, hex_value, decode_hex, parse_hex_from, parse_port,
  decode_proc_ip,
}
use tailkitd.Metrics.Address.RoundTrip.{printed_address, hex_port, decode_socket_address-printed}
use tailkitd.Metrics.Ports.{
  SocketRow, Listener, Port, proc_net_files, read_tables, snapshot, row_of, rows_of,
  read_socket_file, socket_addr_score, best_row, select_socket_addr, sockets_for, build_snapshot,
  port_lt, do_fit,
}
use tailkitd.Metrics.Ports.Sorted.{Snapshot, snapshot_lem}
use tailkitd.Metrics.Ports.Spec.{Polled}
use tailkitd.Metrics.Ports.Tables.{Tabled}

-- The bytes themselves serve as the text of an address.
abbrev bytes_text : List ℕ → Text
bytes_text bytes = bytes

abbrev text_bytes : Text → Option (List ℕ)
text_bytes text = some text

reads_local :
    decode_socket_address bytes_text (codes "0100007F:1F90") false
    ≡ some (127 ∷ 0 ∷ 0 ∷ 1 ∷ [], 8080)
unfolding decode_socket_address cut parse_port parse_hex_from hex_value decode_proc_ip decode_hex
    swap_words
reads_local = refl

decode_socket_address-printed_example :
    decode_socket_address bytes_text
      (printed_address (127 ∷ 0 ∷ 0 ∷ 1 ∷ []) ++ b':' ∷ hex_port 8080)
      false
    ≡ some (127 ∷ 0 ∷ 0 ∷ 1 ∷ [], 8080)
decode_socket_address-printed_example =
    decode_socket_address-printed bytes_text false (127 ∷ 0 ∷ 0 ∷ 1 ∷ []) 8080 refl (omega arith)
      (omega arith)

abbrev table : Text
table =
    codes "heading"
    ++ 10 ∷ codes "0: 0100007F:1F90 00000000:0000 0A 0 0 0 0 0 77"
    ++ 10 ∷ codes "1: 00000000:1F90 00000000:0000 0A 0 0 0 0 0 78"
    ++ 10 ∷ []

abbrev disk : World Text
disk = record { files = (codes "/proc/net/tcp", table) ∷ []; temp = none; faults = [] }

abbrev server : Listener
server = record { proto = codes "tcp"; port = 8080; pid = 1; process = codes "d" }

abbrev shown : Port
shown = record {
  addr = 0 ∷ 0 ∷ 0 ∷ 0 ∷ [];
  port = 8080;
  proto = codes "tcp";
  pid = 1;
  process = codes "d";
}

takes_snapshot :
    (snapshot bytes_text text_bytes (codes "/proc") (ok (server ∷ [], true)) [] disk).0
    ≡ ok (shown ∷ [])
unfolding snapshot read_tables read_socket_file do_fit read_file lookup str_eq sort build_snapshot
    select_socket_addr sockets_for rows_of row_of split fields is_space decode_socket_address cut
    parse_port decode_hex decode_proc_ip hex_value parse_hex_from swap_words best_row port_lt
    socket_addr_score
takes_snapshot = refl

snapshot_lem_example :
    (s : List SocketRow) × (l : List Listener) × ((read_tables bytes_text text_bytes
        (codes "/proc")
        proc_net_files
        disk).0
      ≡ ok s)
    × All (Tabled bytes_text text_bytes (codes "/proc") proc_net_files disk.files) s
    × Polled [] (ok (server ∷ [], true)) l
    × Snapshot bytes_text text_bytes l s (shown ∷ [])
snapshot_lem_example =
    snapshot_lem bytes_text text_bytes (codes "/proc") (ok (server ∷ [], true)) [] disk (shown ∷ [])
      takes_snapshot

newer : version_at_least (codes "v1.10") (codes "1.9.3") ≡ true
unfolding version_at_least parts_at_least pad_parts split without_v cut_prefix str_lt zero_pad zeros
newer = refl

digits_have : All AreDigits (parts_of (codes "v1.10"))
unfolding split without_v cut_prefix
digits_have = omega arith

digits_want : All AreDigits (parts_of (codes "1.9.3"))
unfolding split without_v cut_prefix
digits_want = omega arith

version_at_least-at_least_example :
    version_at_least (codes "v1.10") (codes "1.9.3")
    ≡ at_least (map value (parts_of (codes "v1.10"))) (map value (parts_of (codes "1.9.3")))
version_at_least-at_least_example =
    version_at_least-at_least (codes "v1.10") (codes "1.9.3") digits_have digits_want

abbrev tool : Tool
tool = record { name = codes "t"; version = codes "1" }

abbrev decode_tool : Text → Option Tool
decode_tool text = some tool

plain : PlainNames decode_tool
unfolding contains_byte
plain text t e = let same : tool ≡ t = cc e in rw (← same) refl

abbrev tools_disk : World Text
tools_disk = record { files = (codes "/t/t.json", codes "x") ∷ []; temp = none; faults = [] }

rebuild-lookup_command_example :
    let out = rebuild decode_tool (codes "/t") [] tools_disk in
    KeyedByName out.1 × (lookup_command out.1 (codes "t") (codes "run") ≡ none)
rebuild-lookup_command_example =
    rebuild-lookup_command decode_tool (codes "/t") [] tools_disk (codes "t") (codes "run") plain tt
