-- ===== src/Metrics/Ports/Spec.antt =====
-- internal/metrics/ports.go: what a snapshot has to be, without a look at how it is made.
use tailkitd.Prelude.{
  ℕ, ◌+◌, ◌≤◌, ◌<◌, ◌≡◌, refl, sym, ◌∙◌, ◌⊎◌, inl, inr, Bool, true, false, ◌&&◌, Option, none, some,
  List, [], ◌∷◌, arith, length, Occurs, All, IsSorted, Text, str_eq, str_eq_iff, str_lt,
  str_lt_asymm, ◌==◌, if◌then◌else◌, Bool-cases,
}
use mathlib.Core.Path.{subst}
use tailkitd.Os.{Outcome, ok, err}
use tailkitd.Metrics.Ports.{
  SocketRow, Listener, Port, port_lt, polled, socket_addr_score, score_of, select_socket_addr,
  sockets_for, build_snapshot,
}
use tailkitd.Metrics.Ports.Best.{score, select_socket_addr_lem}

-- The first port comes before the second: by number, address, protocol, process id and name.
abbrev pub Before : Port → Port → Type 0
Before a b =
    (a.port < b.port)
    ⊎ ((a.port ≡ b.port)
        × ((str_lt a.addr b.addr ≡ true)
            ⊎ ((a.addr ≡ b.addr)
                × ((str_lt a.proto b.proto ≡ true)
                    ⊎ ((a.proto ≡ b.proto)
                        × ((a.pid < b.pid)
                            ⊎ ((a.pid ≡ b.pid) × (str_lt a.process b.process ≡ true))))))))

-- No port comes before the one that it stands behind.
abbrev pub InOrder : List Port → Type 0
InOrder [] = Unit
InOrder (a ∷ []) = Unit
InOrder (a ∷ b ∷ ports) = (¬ Before b a) × InOrder (b ∷ ports)

-- The listeners are those that the poller gives, or the ones of the time before if it sees no change.
abbrev pub Polled : List Listener → Outcome (List Listener × Bool) → List Listener → Type 0
Polled cached answer listeners =
    (answer ≡ ok (listeners, true))
    ⊎ (((other : List Listener) × (answer ≡ ok (other, false))) × (listeners ≡ cached))

-- How an address ranks, the least first: an address of IPv6 one behind one of IPv4, an address of the
-- machine itself two behind one that others can reach, and text that is no address last.
abbrev starts_local : List ℕ → Bool
starts_local [] = false
starts_local (b ∷ bytes) = b == 127

abbrev itself : List ℕ → Bool
itself bytes =
    if length bytes == 4
    then starts_local bytes
    else str_eq bytes (0 ∷ 0 ∷ 0 ∷ 0 ∷ 0 ∷ 0 ∷ 0 ∷ 0 ∷ 0 ∷ 0 ∷ 0 ∷ 0 ∷ 0 ∷ 0 ∷ 0 ∷ 1 ∷ [])

abbrev pub rank : Option (List ℕ) → ℕ
rank none = 4
rank (some bytes) = (if length bytes == 4 then 0 else 1) + (if itself bytes then 2 else 0)

abbrev pub Matches : Port → SocketRow → Type 0
Matches p s = (s.proto ≡ p.proto) × (s.port ≡ p.port)

str_lt_irrefl : (s : Text) → str_lt s s ≡ false
str_lt_irrefl s = elim (Bool-cases (str_lt s s)) [ inl e ↦ str_lt_asymm s s e | inr e ↦ e ]

Matches-of :
    (p : Port) (s : SocketRow) → (str_eq s.proto p.proto && s.port == p.port) ≡ true → Matches p s
Matches-of p s h = (ground (arith, h, str_eq_iff s.proto p.proto), ground (arith, h))

of_Matches :
    (p : Port) (s : SocketRow) → Matches p s → (str_eq s.proto p.proto && s.port == p.port) ≡ true
of_Matches p s (proto, port) = ground (arith, proto, port, str_eq_iff s.proto p.proto)

module _ (ip_string : List ℕ → Text) (parse_ip : Text → Option (List ℕ)) where
  pub polled-Polled :
      (cached listeners : List Listener) (answer : Outcome (List Listener × Bool))
      → polled ip_string parse_ip cached answer ≡ ok listeners
      → Polled cached answer listeners
  polled-Polled cached listeners (err e) h = absurd (cc h)
  polled-Polled cached listeners (ok (found, true)) h =
      let same : found ≡ listeners = cc h in inl (rw same refl)
  polled-Polled cached listeners (ok (found, false)) h =
      let same : cached ≡ listeners = cc h in inr ((found, refl), sym same)

  Before-port_lt : (a b : Port) → Before a b → port_lt ip_string parse_ip a b ≡ true
  unfolding port_lt
  Before-port_lt a b h = ground (
    arith,
    h,
    str_eq_iff a.addr b.addr,
    str_eq_iff a.proto b.proto,
    str_lt_asymm a.addr b.addr,
    str_lt_asymm a.proto b.proto,
    str_lt_irrefl a.addr,
    str_lt_irrefl a.proto,
  )

  pub IsSorted-InOrder :
      (ports : List Port) → IsSorted (port_lt ip_string parse_ip) ports → InOrder ports
  IsSorted-InOrder [] h = tt
  IsSorted-InOrder (a ∷ []) h = tt
  IsSorted-InOrder (a ∷ b ∷ ports) h =
      (λ before. absurd (cc (h.0, Before-port_lt b a before)), IsSorted-InOrder (b ∷ ports) h.1)

  score_of-rank : (o : Option (List ℕ)) → score_of ip_string parse_ip o ≡ rank o
  score_of-rank none = refl
  score_of-rank (some []) = ground arith
  score_of-rank (some (a ∷ [])) = ground arith
  score_of-rank (some (a ∷ b ∷ [])) = ground arith
  score_of-rank (some (a ∷ b ∷ c ∷ [])) = ground arith
  score_of-rank (some (a ∷ b ∷ c ∷ d ∷ [])) = ground arith
  score_of-rank (some (a ∷ b ∷ c ∷ d ∷ e ∷ bytes)) = ground arith

  score-rank : (s : SocketRow) → score ip_string parse_ip s ≡ rank (parse_ip s.addr)
  unfolding socket_addr_score
  score-rank s = score_of-rank (parse_ip s.addr)

  -- The address of the best of the sockets of the protocol and the port, or the empty string if
  -- there is none
  abbrev pub ShowsBest : List SocketRow → Port → Type 0
  ShowsBest sockets p =
      (All (λ (s : SocketRow). ¬ Matches p s) sockets × (p.addr ≡ []))
      ⊎ ((r : SocketRow) × Occurs r sockets
          × Matches p r
          × (p.addr ≡ r.addr)
          × All
              (λ (s : SocketRow).
                (¬ Matches p s) ⊎ (rank (parse_ip r.addr) ≤ rank (parse_ip s.addr)))
              sockets)

  sockets_for-Matches :
      (r : SocketRow) (p : Port) (sockets : List SocketRow)
      → Occurs r (sockets_for ip_string parse_ip p.proto p.port sockets)
      → Occurs r sockets × Matches p r
  unfolding sockets_for
  sockets_for-Matches r p [] o = absurd o
  sockets_for-Matches r p (s ∷ sockets) o =
      elim (Bool-cases (str_eq s.proto p.proto && s.port == p.port)) [
        | inr e ↦
            let (there, fits) = sockets_for-Matches r p sockets (rw e at o) in (inr there, fits)
        | inl e ↦ elim (rw e at o) [
          | inl same ↦ (inl same, rw (← same) (Matches-of p s e))
          | inr more ↦ let (there, fits) = sockets_for-Matches r p sockets more in (inr there, fits)
        ]
      ]

  sockets_for-All :
      (Q : SocketRow → Type 0) (p : Port) (sockets : List SocketRow)
      → All Q (sockets_for ip_string parse_ip p.proto p.port sockets)
      → All (λ (s : SocketRow). (¬ Matches p s) ⊎ Q s) sockets
  unfolding sockets_for
  sockets_for-All Q p [] h = tt
  sockets_for-All Q p (s ∷ sockets) h =
      elim (Bool-cases (str_eq s.proto p.proto && s.port == p.port)) [
        | inr e ↦ (
          inl (λ fits. absurd (cc (e, of_Matches p s fits))),
          sockets_for-All Q p sockets (rw e at h),
        )
        | inl e ↦
            let both : All Q (s ∷ sockets_for ip_string parse_ip p.proto p.port sockets) =
              rw e at h in
            (inr both.0, sockets_for-All Q p sockets both.1)
      ]

  none_match :
      (p : Port) (sockets : List SocketRow)
      → All (λ (s : SocketRow). (¬ Matches p s) ⊎ ⊥) sockets
      → All (λ (s : SocketRow). ¬ Matches p s) sockets
  none_match p [] h = tt
  none_match p (s ∷ sockets) (inl other, rest) = (other, none_match p sockets rest)
  none_match p (s ∷ sockets) (inr never, rest) = absurd never

  ranked :
      (r : SocketRow) (rows : List SocketRow)
      → All (λ (s : SocketRow). score ip_string parse_ip r ≤ score ip_string parse_ip s) rows
      → All (λ (s : SocketRow). rank (parse_ip r.addr) ≤ rank (parse_ip s.addr)) rows
  ranked r [] h = tt
  ranked r (s ∷ rows) h = (rw (← score-rank r, ← score-rank s) h.0, ranked r rows h.1)

  select-ShowsBest :
      (p : Port) (sockets : List SocketRow)
      → p.addr
        ≡ select_socket_addr ip_string parse_ip
            (sockets_for ip_string parse_ip p.proto p.port sockets)
      → ShowsBest sockets p
  select-ShowsBest p sockets shown =
      let rows = sockets_for ip_string parse_ip p.proto p.port sockets in
      elim (select_socket_addr_lem ip_string parse_ip rows) [
        | inl (nothing, empty) ↦ inl (
          none_match p sockets (
              sockets_for-All (λ s. ⊥) p sockets
                (subst (λ l. All (λ (s : SocketRow). ⊥) l) (sym nothing) tt)),
          shown ∙ empty,
        )
        | inr (r, (there, least), same) ↦
            let (o, fits) = sockets_for-Matches r p sockets there in
            inr (
              r,
              o,
              fits,
              shown ∙ same,
              sockets_for-All (λ s. rank (parse_ip r.addr) ≤ rank (parse_ip s.addr)) p sockets
                  (ranked r rows least),
            )
      ]

  pub build_snapshot-ShowsBest :
      (listeners : List Listener) (sockets : List SocketRow)
      → All (ShowsBest sockets) (build_snapshot ip_string parse_ip listeners sockets)
  unfolding build_snapshot
  build_snapshot-ShowsBest [] sockets = tt
  build_snapshot-ShowsBest (l ∷ listeners) sockets = (
    select-ShowsBest
        (record {
          addr =
              select_socket_addr ip_string parse_ip
                (sockets_for ip_string parse_ip l.proto l.port sockets);
          port = l.port;
          proto = l.proto;
          pid = l.pid;
          process = l.process;
        })
        sockets refl,
    build_snapshot-ShowsBest listeners sockets,
  )
