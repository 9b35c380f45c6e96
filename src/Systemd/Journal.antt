-- ===== src/Systemd/Journal.antt =====
-- internal/systemd/systemd.go: the journal, as journalctl prints it, one JSON object on a line. The
-- JSON decoders are parameters.
pub mod Lines
use tailkitd.Prelude.{
  ℕ, ◌+◌, ◌-◌, ◌*◌, ◌^◌, ◌&&◌, not, Option, none, some, List, [], ◌∷◌, ℤ, ltb_ℤ, print_int,
  parse_int, pos, Dict, length, split, Text, codes, str_eq, has_prefix, ltb, leb, ◌==◌,
  if◌then◌else◌,
}
use tailkitd.Os.{Outcome, io_fault, ok, err}

-- `journalctlJSON`
pub record RawEntry : Type 0 where
  pub realtime : Text
  pub message : Text
  pub unit : Text
  pub priority : Text

-- `types.JournalEntry`
pub record JournalEntry : Type 0 where
  pub timestamp : ℕ
  pub message : Text
  pub unit : Text
  pub priority : Text
  pub fields : Dict Text

-- `bufio.MaxScanTokenSize`
abbrev pub max_token : ℕ
max_token = 65536

unfoldable pub without_return : Text → Text
without_return [] = []
without_return (c ∷ []) = if c == 13 then [] else c ∷ []
without_return (c ∷ d ∷ s) = c ∷ without_return (d ∷ s)

-- What is behind the last newline is a line if it is not empty.
without_end : List Text → List Text
without_end [] = []
without_end (line ∷ []) = if str_eq line [] then [] else line ∷ []
without_end (line ∷ next ∷ lines) = line ∷ without_end (next ∷ lines)

-- The lines up to the first that does not fit into the buffer of the scanner
until_long : List Text → List Text
unfolding without_return
until_long [] = []
until_long (line ∷ lines) =
    let rest = until_long lines in
    if ltb (length line) max_token then without_return line ∷ rest else []

-- `bufio.Scanner`: the lines for which `Scan` returns true
unfoldable pub scan_lines : Text → List Text
unfolding without_end until_long
scan_lines text = until_long (without_end (split 10 text))

-- The loop of `strconv.ParseUint`, which gives the greatest number where the value does not fit,
-- and 0 at a byte that is no digit
uint_from : ℕ → Text → ℕ
uint_from n [] = n
uint_from n (c ∷ s) =
    let rest = uint_from (n * 10 + (c - 48)) s in
    if not (leb b'0' c && leb c b'9')
    then 0
    else if ltb (n * 10 + (c - 48)) (2 ^ 64)
    then rest
    else 2 ^ 64 - 1

-- `ts`, where the error of `ParseUint` is ignored
unfoldable pub timestamp_of : Text → ℕ
unfolding uint_from
timestamp_of s = uint_from 0 s

-- `priorityIntToName`
unfoldable pub priority_int_to_name : Text → Text
priority_int_to_name s =
    if str_eq s (codes "0")
    then codes "emerg"
    else if str_eq s (codes "1")
    then codes "alert"
    else if str_eq s (codes "2")
    then codes "crit"
    else if str_eq s (codes "3")
    then codes "err"
    else if str_eq s (codes "4")
    then codes "warning"
    else if str_eq s (codes "5")
    then codes "notice"
    else if str_eq s (codes "6")
    then codes "info"
    else if str_eq s (codes "7")
    then codes "debug"
    else s

-- The loop that strips the internal fields
unfoldable pub strip_internal : Dict Text → Dict Text
strip_internal [] = []
strip_internal ((k, v) ∷ d) =
    let rest = strip_internal d in if has_prefix k (codes "__") then rest else (k, v) ∷ rest

-- `isNoEntriesExit` looks at the status of journalctl.
pub data Exit : Type 0 where
  printed : Text → Exit
  exit_code : ℕ → Exit
  not_run : Exit

-- The arguments that `readJournal` and `defaultFollowJournal` add to the first ones
unfoldable pub selection : Text → ℤ → Text → List Text
selection unit lines priority =
    codes "--lines"
    ∷ print_int lines
    ∷ codes "--priority"
    ∷ priority
    ∷ (if str_eq unit [] then [] else codes "--unit" ∷ unit ∷ [])

abbrev pub read_args : Text → ℤ → Text → List Text
read_args unit lines priority =
    codes "--output=json" ∷ codes "--no-pager" ∷ codes "--quiet" ∷ selection unit lines priority

abbrev pub follow_args : Text → ℤ → Text → List Text
follow_args unit lines priority =
    codes "--output=json"
    ∷ codes "--no-pager"
    ∷ codes "--quiet"
    ∷ codes "--follow"
    ∷ selection unit lines priority

abbrev pub if_positive : Option ℤ → ℤ → ℤ
if_positive none default = default
if_positive (some v) default = if ltb_ℤ (pos 0) v then v else default

-- `parseLines`, for the value of the query
unfoldable pub parse_lines : Text → ℤ → ℤ
parse_lines value default =
    if str_eq value [] then default else if_positive (parse_int value) default

module _ (decode : Text → Option RawEntry) (fields_of : Text → Dict Text) where
  abbrev pub entry_of : Text → RawEntry → JournalEntry
  entry_of line raw = record {
    timestamp = timestamp_of raw.realtime;
    message = raw.message;
    unit = raw.unit;
    priority = priority_int_to_name raw.priority;
    fields = strip_internal (fields_of line);
  }

  abbrev pub keep_entry : Text → Option RawEntry → List JournalEntry → List JournalEntry
  keep_entry line none entries = entries
  keep_entry line (some raw) entries = entry_of line raw ∷ entries

  -- The loop of `parseJournalOutput`
  unfoldable pub entries_of : List Text → List JournalEntry
  entries_of [] = []
  entries_of (line ∷ lines) =
      let rest = entries_of lines in
      if str_eq line [] then rest else keep_entry line (decode line) rest

  -- `parseJournalOutput`
  unfoldable pub parse_journal_output : Text → List JournalEntry
  parse_journal_output text = entries_of (scan_lines text)

  abbrev read_exit : Exit → Outcome (List JournalEntry)
  read_exit (printed text) = ok (parse_journal_output text)
  read_exit (exit_code n) = if n == 1 then ok [] else err io_fault
  read_exit not_run = err io_fault

  -- `readJournal`, for what running journalctl gives
  unfoldable pub read_journal : (List Text → Exit) → Text → ℤ → Text → Outcome (List JournalEntry)
  read_journal journalctl unit lines priority =
      read_exit (journalctl (read_args unit lines priority))
