-- ===== src/Systemd/Journal/Lines.antt =====
-- internal/systemd/systemd.go: which lines of the journal a response has.
use tailkitd.Prelude.{
  ◌≡◌, refl, ap, ◌∙◌, inl, inr, true, false, Option, List, [], ◌∷◌, ◌++◌, Dict, length, All, split,
  split-append, Lacks, split_one, Text, str_eq, ltb, if◌then◌else◌, Bool-cases,
}
use tailkitd.Systemd.Journal.{
  RawEntry, JournalEntry, max_token, without_return, without_end, until_long, scan_lines,
  entries_of, parse_journal_output, keep_entry,
}

-- A line of journalctl: one object, which is not empty and has neither a newline nor a return at
-- its end
abbrev pub IsLine : Text → Type 0
IsLine line = Lacks 10 line × (str_eq line [] ≡ false) × (without_return line ≡ line)

abbrev pub Fits : Text → Type 0
Fits line = ltb (length line) max_token ≡ true

-- What journalctl prints: each line with its newline
abbrev pub printed_lines : List Text → Text
printed_lines [] = []
printed_lines (line ∷ lines) = line ++ 10 ∷ printed_lines lines

split-printed_lines :
    (lines : List Text) → All IsLine lines → split 10 (printed_lines lines) ≡ lines ++ [] ∷ []
unfolding split
split-printed_lines [] h = refl
split-printed_lines (line ∷ lines) h =
    split-append 10 line (printed_lines lines)
    ∙ (rw (split_one 10 line h.0.0, split-printed_lines lines h.1) refl)

without_end-append : (lines : List Text) → without_end (lines ++ [] ∷ []) ≡ lines
unfolding without_end str_eq
without_end-append [] = refl
without_end-append (line ∷ []) = refl
without_end-append (line ∷ next ∷ lines) =
    ap (λ rest. line ∷ rest) (without_end-append (next ∷ lines))

-- The lines before the first that has 65536 bytes or more
abbrev pub before_long : List Text → List Text
before_long [] = []
before_long (line ∷ lines) =
    let rest = before_long lines in if ltb (length line) max_token then line ∷ rest else []

until_long-before_long :
    (lines : List Text)
    → All IsLine lines
    → (until_long lines ≡ before_long lines) × All IsLine (before_long lines)
unfolding until_long
until_long-before_long [] h = (refl, tt)
until_long-before_long (line ∷ lines) h =
    let (same, sound) = until_long-before_long lines h.1 in
    elim (Bool-cases (ltb (length line) max_token)) [
      | inl e ↦ (rw (e, h.0.2, same) refl, rw e (h.0, sound))
      | inr e ↦ (rw e refl, rw e tt)
    ]

module _ (decode : Text → Option RawEntry) (fields_of : Text → Dict Text) where
  -- The entries of the lines that decode
  abbrev pub decoded_entries : List Text → List JournalEntry
  decoded_entries [] = []
  decoded_entries (line ∷ lines) =
      keep_entry decode fields_of line (decode line) (decoded_entries lines)

  entries_of-decoded_entries :
      (lines : List Text)
      → All IsLine lines
      → entries_of decode fields_of lines ≡ decoded_entries lines
  unfolding entries_of
  entries_of-decoded_entries [] h = refl
  entries_of-decoded_entries (line ∷ lines) h =
      rw (h.0.1, entries_of-decoded_entries lines h.1) refl

  -- Lines that are not empty, without a newline in them or a return at their end, as journalctl prints
  -- them, give the entries of those that decode, in order; a line that does not decode is left out
  -- alone, but a line of 65536 bytes or more ends the list without an error.
  pub parse_journal_output_lem :
      (lines : List Text)
      → All IsLine lines
      → parse_journal_output decode fields_of (printed_lines lines)
        ≡ decoded_entries (before_long lines)
  unfolding parse_journal_output scan_lines
  parse_journal_output_lem lines h =
      let (same, sound) = until_long-before_long lines h in
      rw (split-printed_lines lines h, without_end-append lines, same)
        (entries_of-decoded_entries (before_long lines) sound)
