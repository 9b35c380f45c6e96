-- ===== src/Metrics/Ports/Tables.antt =====
-- internal/metrics/ports.go: which lines of the tables give a socket.
use tailkitd.Prelude.{
  ℕ, zero, suc, ◌≡◌, refl, ◌⊎◌, inl, inr, Bool, true, false, ◌&&◌, not, Option, none, some, List,
  [], ◌∷◌, ◌++◌, arith, Dict, lookup, Occurs, All, All-append, split, fields, Text, codes, str_eq,
  eq_of_str_eq, str_eq_iff, Bool-cases,
}
use tailkitd.Os.{Outcome, World, read_file, read_file-files, read_file_ok, not_exist, ok, err}
use tailkitd.Metrics.Address.{decode_socket_address}
use tailkitd.Metrics.Ports.{
  SocketRow, ProcNetFile, row_with, row_of_fields, row_of, keep_row, rows_of, below_heading, do_fit,
  table_read, read_socket_file, read_more, read_tables,
}

-- The column of that number, counted from 0
abbrev pub column : ℕ → List Text → Text
column k [] = []
column zero (f ∷ columns) = f
column (suc k) (f ∷ columns) = column k columns

listens :
    (only : Bool) (f : Text)
    → (only && not (str_eq f (codes "0A"))) ≡ false
    → (only ≡ false) ⊎ (f ≡ codes "0A")
listens false f h = inl refl
listens true f h = inr (ground (arith, h, str_eq_iff f (codes "0A")))

module _ (ip_string : List ℕ → Text) (parse_ip : Text → Option (List ℕ)) where
  -- The line has the state of a socket that listens, where the table is one of connections, is bound
  -- to no peer, and tells the address, the port and the inode of the row.
  abbrev pub TellsOf : ProcNetFile → List Text → SocketRow → Type 0
  TellsOf cfg columns s =
      ((cfg.listen_only ≡ false) ⊎ (column 3 columns ≡ codes "0A"))
      × (column 2 columns ≡ cfg.remote_any)
      × (decode_socket_address ip_string (column 1 columns) cfg.ipv6 ≡ some (s.addr, s.port))
      × (s.proto ≡ cfg.proto)
      × (s.inode ≡ column 9 columns)

  -- The row is told by a line of one of the tables.
  abbrev pub Tabled : Text → List ProcNetFile → Dict Text → SocketRow → Type 0
  Tabled root tables files s =
      (cfg : ProcNetFile) × Occurs cfg tables
      × ((text : Text) × (lookup (root ++ codes "/net/" ++ cfg.name) files ≡ some text)
          × ((line : Text) × Occurs line (split 10 text) × TellsOf cfg (fields line) s))

  row_with-TellsOf :
      (cfg : ProcNetFile) (inode : Text) (o : Option (Text × ℕ)) (s : SocketRow)
      → row_with ip_string parse_ip cfg inode o ≡ some s
      → (o ≡ some (s.addr, s.port)) × (s.proto ≡ cfg.proto) × (s.inode ≡ inode)
  row_with-TellsOf cfg inode none s h = absurd (cc h)
  row_with-TellsOf cfg inode (some (addr, port)) s h =
      let same : record { addr = addr; port = port; proto = cfg.proto; inode = inode } ≡ s = cc h in
      rw (← same) (refl, refl, refl)

  row_of_fields-TellsOf :
      (cfg : ProcNetFile) (columns : List Text) (s : SocketRow)
      → row_of_fields ip_string parse_ip cfg columns ≡ some s
      → TellsOf cfg columns s
  row_of_fields-TellsOf cfg [] s h = absurd (cc h)
  row_of_fields-TellsOf cfg (f0 ∷ []) s h = absurd (cc h)
  row_of_fields-TellsOf cfg (f0 ∷ f1 ∷ []) s h = absurd (cc h)
  row_of_fields-TellsOf cfg (f0 ∷ f1 ∷ f2 ∷ []) s h = absurd (cc h)
  row_of_fields-TellsOf cfg (f0 ∷ f1 ∷ f2 ∷ f3 ∷ []) s h = absurd (cc h)
  row_of_fields-TellsOf cfg (f0 ∷ f1 ∷ f2 ∷ f3 ∷ f4 ∷ []) s h = absurd (cc h)
  row_of_fields-TellsOf cfg (f0 ∷ f1 ∷ f2 ∷ f3 ∷ f4 ∷ f5 ∷ []) s h = absurd (cc h)
  row_of_fields-TellsOf cfg (f0 ∷ f1 ∷ f2 ∷ f3 ∷ f4 ∷ f5 ∷ f6 ∷ []) s h = absurd (cc h)
  row_of_fields-TellsOf cfg (f0 ∷ f1 ∷ f2 ∷ f3 ∷ f4 ∷ f5 ∷ f6 ∷ f7 ∷ []) s h = absurd (cc h)
  row_of_fields-TellsOf cfg (f0 ∷ f1 ∷ f2 ∷ f3 ∷ f4 ∷ f5 ∷ f6 ∷ f7 ∷ f8 ∷ []) s h = absurd (cc h)
  row_of_fields-TellsOf cfg (f0 ∷ f1 ∷ f2 ∷ f3 ∷ f4 ∷ f5 ∷ f6 ∷ f7 ∷ f8 ∷ f9 ∷ more) s h =
      elim (Bool-cases (cfg.listen_only && not (str_eq f3 (codes "0A")))) [
        | inl idle ↦ absurd (cc (rw idle at h))
        | inr live ↦ elim (Bool-cases (str_eq f2 cfg.remote_any)) [
          | inr bound ↦ absurd (cc (rw (live, bound) at h))
          | inl free ↦
              let (told, proto, inode) =
                row_with-TellsOf cfg f9 (decode_socket_address ip_string f1 cfg.ipv6) s
                  (rw (live, free) at h) in
              (
                listens cfg.listen_only f3 live,
                eq_of_str_eq f2 cfg.remote_any free,
                told,
                proto,
                inode,
              )
        ]
      ]

  Told : ProcNetFile → List Text → SocketRow → Type 0
  Told cfg lines s = (line : Text) × Occurs line lines × TellsOf cfg (fields line) s

  All-Told-more :
      (cfg : ProcNetFile) (line : Text) (lines : List Text) (rows : List SocketRow)
      → All (Told cfg lines) rows
      → All (Told cfg (line ∷ lines)) rows
  unfolding Told
  All-Told-more cfg line lines [] h = tt
  All-Told-more cfg line lines (s ∷ rows) ((l, o, tells), rest) =
      ((l, inr o, tells), All-Told-more cfg line lines rows rest)

  keep_row-Told :
      (cfg : ProcNetFile) (line : Text) (lines : List Text) (o : Option SocketRow)
      (rows : List SocketRow)
      → ((s : SocketRow) → o ≡ some s → TellsOf cfg (fields line) s)
      → All (Told cfg lines) rows
      → All (Told cfg (line ∷ lines)) (keep_row ip_string parse_ip o rows)
  unfolding Told
  keep_row-Told cfg line lines none rows tells h = All-Told-more cfg line lines rows h
  keep_row-Told cfg line lines (some s) rows tells h =
      ((line, inl refl, tells s refl), All-Told-more cfg line lines rows h)

  rows_of-Told :
      (cfg : ProcNetFile) (lines : List Text)
      → All (Told cfg lines) (rows_of ip_string parse_ip cfg lines)
  unfolding rows_of row_of
  rows_of-Told cfg [] = tt
  rows_of-Told cfg (line ∷ lines) =
      keep_row-Told cfg line lines (row_of_fields ip_string parse_ip cfg (fields line)) _
        (row_of_fields-TellsOf cfg (fields line)) (rows_of-Told cfg lines)

  below_heading-Told :
      (cfg : ProcNetFile) (lines : List Text)
      → All (Told cfg lines) (below_heading ip_string parse_ip cfg lines)
  below_heading-Told cfg [] = tt
  below_heading-Told cfg (heading ∷ lines) =
      All-Told-more cfg heading lines _ (rows_of-Told cfg lines)

  Tabled-of :
      (root text : Text) (cfg : ProcNetFile) (tables : List ProcNetFile) (files : Dict Text)
      (rows : List SocketRow)
      → lookup (root ++ codes "/net/" ++ cfg.name) files ≡ some text
      → All (Told cfg (split 10 text)) rows
      → All (Tabled root (cfg ∷ tables) files) rows
  unfolding Told
  Tabled-of root text cfg tables files [] held h = tt
  Tabled-of root text cfg tables files (s ∷ rows) held (told, rest) =
      ((cfg, inl refl, (text, held, told)), Tabled-of root text cfg tables files rows held rest)

  Tabled-more :
      (root : Text) (cfg : ProcNetFile) (tables : List ProcNetFile) (files : Dict Text)
      (rows : List SocketRow)
      → All (Tabled root tables files) rows
      → All (Tabled root (cfg ∷ tables) files) rows
  Tabled-more root cfg tables files [] h = tt
  Tabled-more root cfg tables files (s ∷ rows) ((c, o, more), rest) =
      ((c, inr o, more), Tabled-more root cfg tables files rows rest)

  table_read-Tabled :
      (root : Text) (cfg : ProcNetFile) (tables : List ProcNetFile) (files : Dict Text)
      (r : Outcome Text) (rows : List SocketRow)
      → ((text : Text) → r ≡ ok text → lookup (root ++ codes "/net/" ++ cfg.name) files ≡ some text)
      → table_read ip_string parse_ip cfg r ≡ ok rows
      → All (Tabled root (cfg ∷ tables) files) rows
  table_read-Tabled root cfg tables files (err not_exist) rows held h =
      let same : [] ≡ rows = cc h in rw (← same) tt
  table_read-Tabled root cfg tables files (err e) rows held h = absurd (cc h)
  table_read-Tabled root cfg tables files (ok text) rows held h =
      elim (Bool-cases (do_fit (split 10 text))) [
        | inr long ↦ absurd (cc (rw long at h))
        | inl fit ↦
            let same : below_heading ip_string parse_ip cfg (split 10 text) ≡ rows =
              cc (rw fit at h) in
            Tabled-of root text cfg tables files rows (held text refl)
              (rw (← same) (below_heading-Told cfg (split 10 text)))
      ]

  read_socket_file-Tabled :
      (root : Text) (cfg : ProcNetFile) (tables : List ProcNetFile) (w : World Text)
      (rows : List SocketRow)
      → (read_socket_file ip_string parse_ip (root ++ codes "/net/" ++ cfg.name) cfg w).0 ≡ ok rows
      → All (Tabled root (cfg ∷ tables) w.files) rows
  unfolding read_socket_file
  read_socket_file-Tabled root cfg tables w rows h =
      let path = root ++ codes "/net/" ++ cfg.name in
      table_read-Tabled root cfg tables w.files (read_file path w).0 rows (read_file_ok path w) h

  read_socket_file-files :
      (path : Text) (cfg : ProcNetFile) (w : World Text)
      → (read_socket_file ip_string parse_ip path cfg w).1.files ≡ w.files
  unfolding read_socket_file
  read_socket_file-files path cfg w = read_file-files path w

  read_more_ok :
      (r : Outcome (List SocketRow)) (w : World Text) (more : Outcome (List SocketRow) × World Text)
      (rows : List SocketRow)
      → (read_more ip_string parse_ip r w more).0 ≡ ok rows
      → (found : List SocketRow) × (rest : List SocketRow) × (r ≡ ok found)
        × (more.0 ≡ ok rest)
        × (found ++ rest ≡ rows)
  read_more_ok (err e) w more rows h = absurd (cc h)
  read_more_ok (ok found) w (err e, w') rows h = absurd (cc h)
  read_more_ok (ok found) w (ok rest, w') rows h =
      let same : found ++ rest ≡ rows = cc h in (found, rest, refl, refl, same)

  -- Every socket that is read is told by a line of a table.
  pub read_tables-Tabled :
      (root : Text) (tables : List ProcNetFile) (w : World Text) (rows : List SocketRow)
      → (read_tables ip_string parse_ip root tables w).0 ≡ ok rows
      → All (Tabled root tables w.files) rows
  unfolding read_tables
  read_tables-Tabled root [] w rows h = let same : [] ≡ rows = cc h in rw (← same) tt
  read_tables-Tabled root (cfg ∷ tables) w rows h =
      let path = root ++ codes "/net/" ++ cfg.name in
      let r : Outcome (List SocketRow) × World Text =
        read_socket_file ip_string parse_ip path cfg w in
      let v : World Text = r.1 in
      let same : v.files ≡ w.files = read_socket_file-files path cfg w in
      let (found, rest, good, more, both) =
        read_more_ok r.0 v (read_tables ip_string parse_ip root tables v) rows h in
      rw (← both) (
        All-append (Tabled root (cfg ∷ tables) w.files) found rest
          (read_socket_file-Tabled root cfg tables w found good)
          (Tabled-more root cfg tables w.files rest
            (rw (← same) (read_tables-Tabled root tables v rest more))))
