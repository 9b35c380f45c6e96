-- ===== src/Metrics/Ports/Sorted.antt =====
-- internal/metrics/ports.go: the snapshot.
use mathlib.Core.List.{Perm}
use mathlib.Core.List.Perm
use mathlib.Core.Path.{subst}
use tailkitd.Prelude.{
  ℕ, ◌≡◌, refl, ap, Bool, true, false, Option, List, [], ◌∷◌, map, arith, All, sort, sort-IsSorted,
  sort-perm, sort-All, Text, str_eq_iff, str_lt_asymm,
}
use tailkitd.Os.{Outcome, World, ok, err}
use tailkitd.Metrics.Ports.{
  SocketRow, Listener, Port, proc_net_files, read_tables, build_snapshot, port_lt, polled, snapshot,
  snapshot_of,
}
use tailkitd.Metrics.Ports.Spec.{
  InOrder, IsSorted-InOrder, Polled, polled-Polled, ShowsBest, build_snapshot-ShowsBest,
}
use tailkitd.Metrics.Ports.Tables.{Tabled, read_tables-Tabled}

module _ (ip_string : List ℕ → Text) (parse_ip : Text → Option (List ℕ)) where
  port_lt_asymm :
      (a b : Port) → port_lt ip_string parse_ip a b ≡ true → port_lt ip_string parse_ip b a ≡ false
  unfolding port_lt
  port_lt_asymm a b h = ground (
    arith,
    str_eq_iff a.addr b.addr,
    str_eq_iff b.addr a.addr,
    str_eq_iff a.proto b.proto,
    str_eq_iff b.proto a.proto,
    str_lt_asymm a.addr b.addr,
    str_lt_asymm a.proto b.proto,
    str_lt_asymm a.process b.process,
  )

  abbrev pub listener_of : Port → Listener
  listener_of p = record { proto = p.proto; port = p.port; pid = p.pid; process = p.process }

  listeners_of-build_snapshot :
      (listeners : List Listener) (sockets : List SocketRow)
      → map listener_of (build_snapshot ip_string parse_ip listeners sockets) ≡ listeners
  unfolding build_snapshot
  listeners_of-build_snapshot [] sockets = refl
  listeners_of-build_snapshot (l ∷ listeners) sockets =
      ap (λ t. l ∷ t) (listeners_of-build_snapshot listeners sockets)

  -- A snapshot of the listeners and the sockets
  abbrev pub Snapshot : List Listener → List SocketRow → List Port → Type 0
  Snapshot listeners sockets ports =
      InOrder ports
      × Perm (map listener_of ports) listeners
      × All (ShowsBest ip_string parse_ip sockets) ports

  snapshot_of-Snapshot :
      (cached : List Listener) (answer : Outcome (List Listener × Bool))
      (sockets : Outcome (List SocketRow)) (listeners : Outcome (List Listener)) (ports : List Port)
      → polled ip_string parse_ip cached answer ≡ listeners
      → snapshot_of ip_string parse_ip sockets listeners ≡ ok ports
      → (s : List SocketRow) × (l : List Listener) × (sockets ≡ ok s)
        × Polled cached answer l
        × Snapshot l s ports
  snapshot_of-Snapshot cached answer (err e) listeners ports p h = absurd (cc h)
  snapshot_of-Snapshot cached answer (ok s) (err e) ports p h = absurd (cc h)
  snapshot_of-Snapshot cached answer (ok s) (ok l) ports p h =
      let before = port_lt ip_string parse_ip in
      let built = build_snapshot ip_string parse_ip l s in
      let same : sort before built ≡ ports = cc h in
      (
        s,
        l,
        refl,
        polled-Polled ip_string parse_ip cached l answer p,
        rw (← same) (
          IsSorted-InOrder ip_string parse_ip (sort before built)
              (sort-IsSorted before port_lt_asymm built),
          subst (λ t. Perm (map listener_of (sort before built)) t)
              (listeners_of-build_snapshot l s) (Perm.map listener_of (sort-perm before built)),
          sort-All before (ShowsBest ip_string parse_ip s) built
              (build_snapshot-ShowsBest ip_string parse_ip l s),
        ),
      )

  -- A snapshot that succeeds is made of the sockets that are read from the tables, each of which a
  -- line of a table tells: one that is bound to no peer and, in a table of TCP, listens. It is
  -- made of the listeners that the poller gives, or of those kept from the time before if the
  -- poller reports no change: it has each listener once, and no port comes, by number, address,
  -- protocol, process id and name, before the one that stands right in front of it. For each port
  -- it shows the address of a socket with its protocol and number that none of the others
  -- outranks, an address that others can reach ranking before one of the machine itself and, among
  -- these, IPv4 before IPv6; or no address if there is no such socket.
  pub snapshot_lem :
      (root : Text) (answer : Outcome (List Listener × Bool)) (cached : List Listener)
      (w : World Text) (ports : List Port)
      → (snapshot ip_string parse_ip root answer cached w).0 ≡ ok ports
      → (s : List SocketRow) × (l : List Listener) × ((read_tables ip_string parse_ip root
            proc_net_files w).0
          ≡ ok s)
        × All (Tabled ip_string parse_ip root proc_net_files w.files) s
        × Polled cached answer l
        × Snapshot l s ports
  unfolding snapshot
  snapshot_lem root answer cached w ports h =
      let tables = read_tables ip_string parse_ip root proc_net_files w in
      let (s, l, read, poll, shown) =
        snapshot_of-Snapshot cached answer tables.0 (polled ip_string parse_ip cached answer) ports
          refl h in
      (s, l, read, read_tables-Tabled ip_string parse_ip root proc_net_files w s read, poll, shown)
