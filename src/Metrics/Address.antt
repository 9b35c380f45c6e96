-- ===== src/Metrics/Address.antt =====
-- internal/metrics/ports.go: the addresses of /proc, which are hexadecimal numbers of the machine,
-- the lowest byte first.
pub mod RoundTrip
use tailkitd.Prelude.{
  ℕ, ◌+◌, ◌-◌, ◌*◌, Bool, true, false, ◌&&◌, Option, none, some, List, [], ◌∷◌, length, cut, Text,
  ltb, leb, ◌==◌, if◌then◌else◌,
}
use tailkitd.Os.{Outcome, ok, err}

unfoldable pub hex_value : ℕ → Option ℕ
hex_value c =
    if leb b'0' c && leb c b'9'
    then some (c - 48)
    else if leb b'a' c && leb c b'f'
    then some (c - 87)
    else if leb b'A' c && leb c b'F'
    then some (c - 55)
    else none

abbrev pair_byte : Option ℕ → Option ℕ → Option (List ℕ) → Option (List ℕ)
pair_byte (some hi) (some lo) (some bytes) = some ((hi * 16 + lo) ∷ bytes)
pair_byte _ _ _ = none

-- `hex.DecodeString`
unfoldable pub decode_hex : Text → Option (List ℕ)
decode_hex [] = some []
decode_hex (a ∷ []) = none
decode_hex (a ∷ b ∷ s) = pair_byte (hex_value a) (hex_value b) (decode_hex s)

abbrev next_digit : ℕ → Option ℕ → (ℕ → Option ℕ) → Option ℕ
next_digit v none rest = none
next_digit v (some d) rest = rest (v * 16 + d)

unfoldable pub parse_hex_from : ℕ → Text → Option ℕ
parse_hex_from v [] = some v
parse_hex_from v (c ∷ s) = next_digit v (hex_value c) (λ u. parse_hex_from u s)

abbrev in_uint16 : Option ℕ → Option ℕ
in_uint16 none = none
in_uint16 (some v) = if ltb v 65536 then some v else none

-- `strconv.ParseUint(s, 16, 16)`
unfoldable pub parse_port : Text → Option ℕ
parse_port [] = none
parse_port (c ∷ s) = in_uint16 (parse_hex_from 0 (c ∷ s))

-- The loop that turns each group of four bytes round
unfoldable pub swap_words : List ℕ → List ℕ
swap_words (a ∷ b ∷ c ∷ d ∷ bytes) = d ∷ c ∷ b ∷ a ∷ swap_words bytes
swap_words _ = []

module _ (ip_string : List ℕ → Text) where
  abbrev ip_of : Bool → Option (List ℕ) → Option Text
  ip_of ipv6 none = none
  ip_of false (some raw) = if length raw == 4 then some (ip_string (swap_words raw)) else none
  ip_of true (some raw) = if length raw == 16 then some (ip_string (swap_words raw)) else none

  -- `decodeProcIP`
  unfoldable pub decode_proc_ip : Text → Bool → Option Text
  decode_proc_ip value ipv6 = ip_of ipv6 (decode_hex value)

  abbrev both : Option ℕ → Option Text → Option (Text × ℕ)
  both (some port) (some ip) = some (ip, port)
  both _ _ = none

  abbrev decoded_parts : Bool → Option (Text × Text) → Option (Text × ℕ)
  decoded_parts ipv6 none = none
  decoded_parts ipv6 (some (host, port)) = both (parse_port port) (decode_proc_ip host ipv6)

  -- `decodeSocketAddress`
  unfoldable pub decode_socket_address : Text → Bool → Option (Text × ℕ)
  decode_socket_address value ipv6 = decoded_parts ipv6 (cut b':' value)
