-- ===== src/Tests/Systemd.antt =====
-- Runs of internal/systemd.
use tailkitd.Prelude.{
  ℕ, zero, suc, ◌≡◌, refl, ap, ◌⊎◌, true, false, Option, none, some, List, [], ◌∷◌, ltb_ℤ, pos,
  Dict, lookup, length, All, cut, Lacks, Text, codes, str_eq, cut_prefix, contains_byte, ltb,
  if◌then◌else◌,
}
use tailkitd.Os.{World, read_file, not_exist, ok, err}
use tailkitd.Api.Http.{method_post}
use tailkitd.Api.Gate.{trim_prefix}
use tailkitd.Config.Loading.{is_known, are_known, load_config}
use tailkitd.Config.Integrations.{
  SystemdConfig, load_systemd_config, validate_systemd_config, with_journal_defaults,
  journal_priorities,
}
use tailkitd.Exec.Jobs.{new_job}
use tailkitd.Exec.Jobs.Laws.{Op, created, evicted}
use tailkitd.Systemd.Journal.{RawEntry, exit_code, without_return, max_token, parse_journal_output}
use tailkitd.Systemd.Journal.Lines.{
  IsLine, printed_lines, decoded_entries, parse_journal_output_lem, before_long,
}
use tailkitd.Systemd.Tasks.{start, control, Task}
use tailkitd.Systemd.Units.{
  Client, available, spawned, Answers, SystemdRequest, job_accepted, Turn, handle_unit_control,
  action_of, controlled, unit_parts, route_unit, to_unit, serve_systemd,
}
use tailkitd.Systemd.Units.Guarded.{Fair, is_job}
use tailkitd.Systemd.Units.Guarded.Served.{serve_systemd_lem}
use tailkitd.Systemd.Units.Allow.{with_allow, IsOther, serve_systemd-with_allow}

abbrev written : SystemdConfig
written = record {
  enabled = false;
  units_enabled = true;
  units_allow = codes "list" ∷ [];
  journal_enabled = true;
  priority = [];
  lines = pos 0;
  system_journal = false;
}

abbrev toml : Text → Option SystemdConfig
toml text = some written

abbrev disk : World Text
disk = record { files = (codes "/s", codes "x") ∷ []; temp = none; faults = [] }

abbrev client : Client
client = record {
  config = record written { enabled = true; priority = codes "info"; lines = pos 100 };
  connected = true;
}

loads_config : (load_systemd_config toml (codes "/s") disk).0 ≡ ok client.config
unfolding load_systemd_config load_config read_file lookup str_eq validate_systemd_config is_known
    are_known with_journal_defaults ltb_ℤ
loads_config = refl

abbrev decode : Text → Option RawEntry
decode line =
    if str_eq line (codes "a")
    then some
        (record { realtime = codes "7"; message = codes "m"; unit = []; priority = codes "3" })
    else none

abbrev fields_of : Text → Dict Text
fields_of line = []

abbrev answers : Answers
answers = record {
  units = ok tt;
  fragment_path = λ unit. ok none;
  read_file = λ path. err not_exist;
  journalctl = λ args. exit_code 1;
}

abbrev request : SystemdRequest
request = record {
  method = method_post;
  path = codes "/integrations/systemd/units/nginx.service/start";
  lines = [];
  follow = [];
  uuid = codes "j";
  now = 5;
}

abbrev turn : Turn
turn = serve_systemd decode fields_of answers client to_unit request []

-- A unit is started though `allow` has only `list`.
starts : turn ≡ (
  job_accepted (codes "j"),
  spawned (control start (codes "nginx.service") (codes "j")) ∷ [],
  new_job (codes "j") 5 [],
)
unfolding serve_systemd available route_unit unit_parts trim_prefix cut str_eq action_of
    handle_unit_control cut_prefix
starts = refl

serve_systemd_lem_example :
    Fair client request turn []
    × (((available client ≡ true) × (is_known journal_priorities client.config.priority ≡ true))
        ⊎ ((is_job turn.0 ≡ false) × (turn.1 ≡ []) × (turn.2 ≡ [])))
serve_systemd_lem_example =
    serve_systemd_lem client decode fields_of answers toml (codes "/s") disk to_unit request []
      loads_config

start_action : action_of (unit_parts request.path).1 ≡ controlled start
unfolding unit_parts trim_prefix cut str_eq action_of cut_prefix
start_action = refl

other : IsOther to_unit request
other b h = absurd (cc (start_action, h))

serve_systemd-with_allow_example :
    serve_systemd decode fields_of answers (with_allow client []) to_unit request [] ≡ turn
serve_systemd-with_allow_example =
    serve_systemd-with_allow decode fields_of answers client [] to_unit request [] other

abbrev task : Task
task = control start (codes "nginx.service") (codes "j")

abbrev ops : List Op
ops = created (codes "k") 8 ∷ evicted 300000000007 ∷ []

abbrev lines : List Text
lines = codes "a" ∷ codes "b" ∷ []

lines_sound : All IsLine lines
unfolding contains_byte str_eq without_return
lines_sound = ((refl, refl, refl), ((refl, refl, refl), tt))

-- A line of n + 1 bytes
repeated : ℕ → Text
repeated zero = b'}' ∷ []
repeated (suc n) = b'{' ∷ repeated n

length-repeated : (n : ℕ) → length (repeated n) ≡ suc n
unfolding repeated
length-repeated zero = refl
length-repeated (suc n) = ap suc (length-repeated n)

repeated-Lacks : (n : ℕ) → Lacks 10 (repeated n)
unfolding repeated contains_byte
repeated-Lacks zero = refl
repeated-Lacks (suc n) = repeated-Lacks n

without_return-repeated : (n : ℕ) → without_return (repeated n) ≡ repeated n
unfolding repeated without_return
without_return-repeated zero = refl
without_return-repeated (suc zero) = refl
without_return-repeated (suc (suc n)) = ap (λ s. b'{' ∷ s) (without_return-repeated (suc n))

repeated_not_nil : (n : ℕ) → str_eq (repeated n) [] ≡ false
unfolding repeated str_eq
repeated_not_nil zero = refl
repeated_not_nil (suc n) = refl

repeated-IsLine : (n : ℕ) → IsLine (repeated n)
repeated-IsLine n = (repeated-Lacks n, repeated_not_nil n, without_return-repeated n)

long : ltb (length (repeated 65535)) max_token ≡ false
long = rw (length-repeated 65535) refl

abbrev with_long : List Text
with_long = codes "a" ∷ codes "b" ∷ repeated 65535 ∷ codes "a" ∷ []

-- The last line is lost.
before : before_long with_long ≡ lines
before = rw long refl

parse_journal_output_lem_example :
    parse_journal_output decode fields_of (printed_lines with_long)
    ≡ decoded_entries decode fields_of (before_long with_long)
parse_journal_output_lem_example =
    parse_journal_output_lem decode fields_of with_long
      (lines_sound.0, (lines_sound.1.0, (repeated-IsLine 65535, (lines_sound.0, tt))))
