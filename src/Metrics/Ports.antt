-- ===== src/Metrics/Ports.antt =====
-- internal/metrics/ports.go: the tables of sockets and the snapshot of the ports. The map of the
-- sockets by protocol and port is read as the sockets that match, in their order.
pub mod Best
pub mod Spec
pub mod Tables
pub mod Sorted
use tailkitd.Prelude.{
  ℕ, Bool, true, false, ◌&&◌, not, Option, none, some, List, [], ◌∷◌, ◌++◌, length, sort, split,
  fields, Text, codes, str_eq, str_lt, ltb, ◌==◌, if◌then◌else◌,
}
use tailkitd.Os.{Outcome, World, Io, read_file, not_exist, io_fault, ok, err}
use tailkitd.Metrics.Address.{decode_socket_address}

pub record SocketRow : Type 0 where
  pub addr : Text
  pub port : ℕ
  pub proto : Text
  pub inode : Text

pub record ProcNetFile : Type 0 where
  pub name : Text
  pub proto : Text
  pub ipv6 : Bool
  pub remote_any : Text
  pub listen_only : Bool

-- An element of package portlist
pub record Listener : Type 0 where
  pub proto : Text
  pub port : ℕ
  pub pid : ℕ
  pub process : Text

pub record Port : Type 0 where
  pub addr : Text
  pub port : ℕ
  pub proto : Text
  pub pid : ℕ
  pub process : Text

abbrev pub proc_net_files : List ProcNetFile
proc_net_files =
    record {
      name = codes "tcp";
      proto = codes "tcp";
      ipv6 = false;
      remote_any = codes "00000000:0000";
      listen_only = true;
    }
    ∷ record {
      name = codes "tcp6";
      proto = codes "tcp";
      ipv6 = true;
      remote_any = codes "00000000000000000000000000000000:0000";
      listen_only = true;
    }
    ∷ record {
      name = codes "udp";
      proto = codes "udp";
      ipv6 = false;
      remote_any = codes "00000000:0000";
      listen_only = false;
    }
    ∷ record {
      name = codes "udp6";
      proto = codes "udp";
      ipv6 = true;
      remote_any = codes "00000000000000000000000000000000:0000";
      listen_only = false;
    }
    ∷ []

-- No line is too long for the buffer of `bufio.Scanner`, whose error ends the reading.
unfoldable pub do_fit : List Text → Bool
do_fit [] = true
do_fit (line ∷ lines) = ltb (length line) 65536 && do_fit lines

module _ (ip_string : List ℕ → Text) (parse_ip : Text → Option (List ℕ)) where
  abbrev pub row_with : ProcNetFile → Text → Option (Text × ℕ) → Option SocketRow
  row_with cfg inode none = none
  row_with cfg inode (some (addr, port)) =
      some (record { addr = addr; port = port; proto = cfg.proto; inode = inode })

  -- A line with ten fields or more
  abbrev pub row_of_fields : ProcNetFile → List Text → Option SocketRow
  row_of_fields cfg (f0 ∷ f1 ∷ f2 ∷ f3 ∷ f4 ∷ f5 ∷ f6 ∷ f7 ∷ f8 ∷ f9 ∷ more) =
      if cfg.listen_only && not (str_eq f3 (codes "0A"))
      then none
      else if not (str_eq f2 cfg.remote_any)
      then none
      else row_with cfg f9 (decode_socket_address ip_string f1 cfg.ipv6)
  row_of_fields cfg _ = none

  unfoldable pub row_of : ProcNetFile → Text → Option SocketRow
  row_of cfg line = row_of_fields cfg (fields line)

  abbrev pub keep_row : Option SocketRow → List SocketRow → List SocketRow
  keep_row none rows = rows
  keep_row (some row) rows = row ∷ rows

  unfoldable pub rows_of : ProcNetFile → List Text → List SocketRow
  rows_of cfg [] = []
  rows_of cfg (line ∷ lines) = keep_row (row_of cfg line) (rows_of cfg lines)

  -- All lines but the first, which is the heading
  abbrev pub below_heading : ProcNetFile → List Text → List SocketRow
  below_heading cfg [] = []
  below_heading cfg (heading ∷ lines) = rows_of cfg lines

  abbrev pub table_read : ProcNetFile → Outcome Text → Outcome (List SocketRow)
  table_read cfg (ok text) =
      if do_fit (split 10 text) then ok (below_heading cfg (split 10 text)) else err io_fault
  table_read cfg (err not_exist) = ok []
  table_read cfg (err e) = err e

  -- `readSocketFile`; an empty line behind the last newline has too few fields.
  unfoldable pub read_socket_file : Text → ProcNetFile → Io Text (List SocketRow)
  read_socket_file path cfg w = let (r, w') = read_file path w in (table_read cfg r, w')

  abbrev pub append_ok : List SocketRow → Outcome (List SocketRow) → Outcome (List SocketRow)
  append_ok rows (ok more) = ok (rows ++ more)
  append_ok rows (err e) = err e

  -- What `readSockets` makes of one table and, unless that one fails, of the rest
  abbrev pub read_more :
      Outcome (List SocketRow)
      → World Text
      → Outcome (List SocketRow) × World Text
      → Outcome (List SocketRow) × World Text
  read_more (ok rows) w (rest, w') = (append_ok rows rest, w')
  read_more (err e) w more = (err e, w)

  -- The loop of `readSockets`; the root of /proc is a clean path.
  unfoldable pub read_tables : Text → List ProcNetFile → Io Text (List SocketRow)
  read_tables root [] w = (ok [], w)
  read_tables root (cfg ∷ files) w =
      let (r, w') = read_socket_file (root ++ codes "/net/" ++ cfg.name) cfg w in
      let more = read_tables root files w' in read_more r w' more

  abbrev pub is_v4 : List ℕ → Option (List ℕ)
  is_v4 (a ∷ b ∷ c ∷ d ∷ []) = some (a ∷ b ∷ c ∷ d ∷ [])
  is_v4 _ = none

  abbrev pub is_loopback_v6 : List ℕ → Bool
  is_loopback_v6 bytes =
      str_eq bytes (0 ∷ 0 ∷ 0 ∷ 0 ∷ 0 ∷ 0 ∷ 0 ∷ 0 ∷ 0 ∷ 0 ∷ 0 ∷ 0 ∷ 0 ∷ 0 ∷ 0 ∷ 1 ∷ [])

  abbrev pub first_is : ℕ → List ℕ → Bool
  first_is n [] = false
  first_is n (b ∷ bytes) = b == n

  abbrev score_of_v4 : List ℕ → Option (List ℕ) → ℕ
  score_of_v4 bytes (some v4) = if first_is 127 v4 then 2 else 0
  score_of_v4 bytes none = if is_loopback_v6 bytes then 3 else 1

  abbrev pub score_of : Option (List ℕ) → ℕ
  score_of none = 4
  score_of (some bytes) = score_of_v4 bytes (is_v4 bytes)

  -- `socketAddrScore`
  unfoldable pub socket_addr_score : Text → ℕ
  socket_addr_score addr = score_of (parse_ip addr)

  -- The loop of `selectSocketAddr`, with the best row so far
  unfoldable pub best_row : SocketRow → List SocketRow → SocketRow
  best_row best [] = best
  best_row best (s ∷ sockets) =
      best_row (if ltb (socket_addr_score s.addr) (socket_addr_score best.addr) then s else best)
        sockets

  -- `selectSocketAddr`
  unfoldable pub select_socket_addr : List SocketRow → Text
  select_socket_addr [] = []
  select_socket_addr (s ∷ sockets) = (best_row s sockets).addr

  -- `addresses[key]`
  unfoldable pub sockets_for : Text → ℕ → List SocketRow → List SocketRow
  sockets_for proto port [] = []
  sockets_for proto port (s ∷ sockets) =
      let rest = sockets_for proto port sockets in
      if str_eq s.proto proto && s.port == port then s ∷ rest else rest

  -- `buildSnapshot`
  unfoldable pub build_snapshot : List Listener → List SocketRow → List Port
  build_snapshot [] sockets = []
  build_snapshot (l ∷ listeners) sockets =
      record {
        addr = select_socket_addr (sockets_for l.proto l.port sockets);
        port = l.port;
        proto = l.proto;
        pid = l.pid;
        process = l.process;
      }
      ∷ build_snapshot listeners sockets

  -- The order of `sort.Slice` in `Snapshot`
  unfoldable pub port_lt : Port → Port → Bool
  port_lt a b =
      if not (a.port == b.port)
      then ltb a.port b.port
      else if not (str_eq a.addr b.addr)
      then str_lt a.addr b.addr
      else if not (str_eq a.proto b.proto)
      then str_lt a.proto b.proto
      else if not (a.pid == b.pid)
      then ltb a.pid b.pid
      else str_lt a.process b.process

  abbrev pub polled : List Listener → Outcome (List Listener × Bool) → Outcome (List Listener)
  polled cached (err e) = err e
  polled cached (ok (listeners, true)) = ok listeners
  polled cached (ok (listeners, false)) = ok cached

  abbrev snapshot_of : Outcome (List SocketRow) → Outcome (List Listener) → Outcome (List Port)
  snapshot_of (err e) listeners = err e
  snapshot_of (ok sockets) (err e) = err e
  snapshot_of (ok sockets) (ok listeners) = ok (sort port_lt (build_snapshot listeners sockets))

  abbrev or_cached : List Listener → Outcome (List Listener) → List Listener
  or_cached cached (ok listeners) = listeners
  or_cached cached (err e) = cached

  abbrev cached_after :
      List Listener → Outcome (List SocketRow) → Outcome (List Listener) → List Listener
  cached_after cached (err e) listeners = cached
  cached_after cached (ok sockets) listeners = or_cached cached listeners

  -- `Snapshot` with `poll`: the answer of the poller, the ports, what is cached then, and the files
  unfoldable pub snapshot :
      Text
      → Outcome (List Listener × Bool)
      → List Listener
      → World Text
      → Outcome (List Port) × List Listener × World Text
  snapshot root answer cached w =
      let (sockets, w') = read_tables root proc_net_files w in
      let listeners = polled cached answer in
      (snapshot_of sockets listeners, cached_after cached sockets listeners, w')
