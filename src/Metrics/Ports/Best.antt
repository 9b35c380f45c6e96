-- ===== src/Metrics/Ports/Best.antt =====
-- internal/metrics/ports.go: the best of the sockets by the score of their addresses.
use tailkitd.Prelude.{
  ℕ, ◌≤◌, ◌≡◌, refl, sym, ◌⊎◌, inl, inr, true, false, Option, List, [], ◌∷◌, arith, Occurs, All,
  Text, ltb, Bool-cases,
}
use mathlib.Core.Path.{subst}
use tailkitd.Metrics.Ports.{SocketRow, socket_addr_score, best_row, select_socket_addr}

module _ (ip_string : List ℕ → Text) (parse_ip : Text → Option (List ℕ)) where
  abbrev pub score : SocketRow → ℕ
  score s = socket_addr_score ip_string parse_ip s.addr

  -- One of the rows, with the least score of all
  abbrev pub IsBest : SocketRow → List SocketRow → Type 0
  IsBest r rows = Occurs r rows × All (λ (s : SocketRow). score r ≤ score s) rows

  All-trans :
      (r best : SocketRow) (rows : List SocketRow)
      → score r ≤ score best
      → All (λ (s : SocketRow). score best ≤ score s) rows
      → All (λ (s : SocketRow). score r ≤ score s) rows
  All-trans r best [] h a = tt
  All-trans r best (s ∷ rows) h a = (omega (arith, h, a.0), All-trans r best rows h a.1)

  best_row-less :
      (best s : SocketRow) (rows : List SocketRow)
      → ltb (score s) (score best) ≡ true
      → best_row ip_string parse_ip best (s ∷ rows) ≡ best_row ip_string parse_ip s rows
  unfolding best_row
  best_row-less best s rows h = rw h refl

  best_row-not_less :
      (best s : SocketRow) (rows : List SocketRow)
      → ltb (score s) (score best) ≡ false
      → best_row ip_string parse_ip best (s ∷ rows) ≡ best_row ip_string parse_ip best rows
  unfolding best_row
  best_row-not_less best s rows h = rw h refl

  past :
      (r best s : SocketRow) (rows : List SocketRow)
      → Occurs r (best ∷ rows)
      → Occurs r (best ∷ s ∷ rows)
  past r best s rows (inl e) = inl e
  past r best s rows (inr o) = inr (inr o)

  best_row-IsBest :
      (best : SocketRow) (rows : List SocketRow)
      → IsBest (best_row ip_string parse_ip best rows) (best ∷ rows)
  best_row-IsBest best [] = unfold best_row in (inl refl, (omega arith, tt))
  best_row-IsBest best (s ∷ rows) = elim (Bool-cases (ltb (score s) (score best))) [
    | inl less ↦
        let r = best_row ip_string parse_ip s rows in
        let (o, a) = best_row-IsBest s rows in
        subst (λ q. IsBest q (best ∷ s ∷ rows)) (sym (best_row-less best s rows less))
          (inr o, (ground (arith, a.0, less), a))
    | inr not_less ↦
        let r = best_row ip_string parse_ip best rows in
        let (o, a) = best_row-IsBest best rows in
        subst (λ q. IsBest q (best ∷ s ∷ rows)) (sym (best_row-not_less best s rows not_less))
          (past r best s rows o, (a.0, (ground (arith, a.0, not_less), a.1)))
  ]

  pub select_socket_addr_lem :
      (rows : List SocketRow)
      → ((rows ≡ []) × (select_socket_addr ip_string parse_ip rows ≡ []))
        ⊎ ((r : SocketRow) × IsBest r rows × (select_socket_addr ip_string parse_ip rows ≡ r.addr))
  unfolding select_socket_addr
  select_socket_addr_lem [] = inl (refl, refl)
  select_socket_addr_lem (s ∷ rows) =
      inr (best_row ip_string parse_ip s rows, best_row-IsBest s rows, refl)
