-- ===== src/Metrics/Address/RoundTrip.antt =====
-- internal/metrics/ports.go: what the kernel prints is read back.
use tailkitd.Prelude.{
  ℕ, zero, suc, ◌+◌, ◌*◌, ◌/◌, ◌%◌, ◌<◌, ◌≡◌, refl, sym, ap, ◌∙◌, Bool, true, false, Option, none,
  some, List, [], ◌∷◌, ◌++◌, arith, length, All, Lacks, cut-append, Text, contains_byte, ltb, ◌==◌,
  if◌then◌else◌,
}
use tailkitd.Metrics.Address.{
  hex_value, decode_hex, parse_hex_from, parse_port, swap_words, decode_proc_ip,
  decode_socket_address, in_uint16, ip_of,
}

-- How the kernel prints
abbrev hex_digit : ℕ → ℕ
hex_digit n = if ltb n 10 then 48 + n else 55 + n

abbrev pub IsByte : ℕ → Type 0
IsByte b = b < 256

-- `%02X`, for each byte
pub hex_bytes : List ℕ → Text
hex_bytes [] = []
hex_bytes (b ∷ bytes) = hex_digit (b / 16) ∷ hex_digit (b % 16) ∷ hex_bytes bytes

-- `%08X` of a number below 2 ^ 32, the greatest digit first
pub hex_word : ℕ → Text
unfolding hex_bytes
hex_word n = hex_bytes (n / 16777216 ∷ n / 65536 % 256 ∷ n / 256 % 256 ∷ n % 256 ∷ [])

-- The kernel prints an address word by word. It takes the four bytes of a word, in the order of the
-- network, for a number of a machine whose lowest byte is the first.
pub printed_address : List ℕ → Text
unfolding hex_word
printed_address (a ∷ b ∷ c ∷ d ∷ bytes) =
    hex_word (a + b * 256 + c * 65536 + d * 16777216) ++ printed_address bytes
printed_address _ = []

-- `%04X`
pub hex_port : ℕ → Text
hex_port p =
    hex_digit (p / 4096)
    ∷ hex_digit (p / 256 % 16)
    ∷ hex_digit (p / 16 % 16)
    ∷ hex_digit (p % 16)
    ∷ []

hex_value-hex_digit : (n : ℕ) → n < 16 → hex_value (hex_digit n) ≡ some n
unfolding hex_value
hex_value-hex_digit n h = ground arith

decode_hex-hex_bytes :
    (bytes : List ℕ) → All IsByte bytes → decode_hex (hex_bytes bytes) ≡ some bytes
unfolding decode_hex hex_bytes
decode_hex-hex_bytes [] h = refl
decode_hex-hex_bytes (b ∷ bytes) h =
    rw
      (
        hex_value-hex_digit (b / 16) (omega (arith, h.0)),
        hex_value-hex_digit (b % 16) (omega arith),
        decode_hex-hex_bytes bytes h.1,
      )
      (ap (λ t. some (t ∷ bytes)) (omega arith))

parse_port-hex_port : (p : ℕ) → p < 65536 → parse_port (hex_port p) ≡ some p
unfolding parse_port hex_port parse_hex_from
parse_port-hex_port p h =
    rw
      (
        hex_value-hex_digit (p / 4096) (omega (arith, h)),
        hex_value-hex_digit (p / 256 % 16) (omega arith),
        hex_value-hex_digit (p / 16 % 16) (omega arith),
        hex_value-hex_digit (p % 16) (omega arith),
      )
      (ground (arith, h))

hex_digit-Lacks : (n : ℕ) → n < 16 → (hex_digit n == b':') ≡ false
hex_digit-Lacks n h = ground arith

hex_bytes-Lacks : (bytes : List ℕ) → All IsByte bytes → Lacks b':' (hex_bytes bytes)
unfolding hex_bytes contains_byte
hex_bytes-Lacks [] h = refl
hex_bytes-Lacks (b ∷ bytes) h =
    rw
      (
        hex_digit-Lacks (b / 16) (omega (arith, h.0)),
        hex_digit-Lacks (b % 16) (omega arith),
        hex_bytes-Lacks bytes h.1,
      )
      refl

-- Four bytes to a word
abbrev Words : List ℕ → Type 0
Words [] = Unit
Words (a ∷ []) = ⊥
Words (a ∷ b ∷ []) = ⊥
Words (a ∷ b ∷ c ∷ []) = ⊥
Words (a ∷ b ∷ c ∷ d ∷ bytes) = Words bytes

Words-of : (n : ℕ) (bytes : List ℕ) → length bytes ≡ n * 4 → Words bytes
Words-of n [] h = tt
Words-of n (a ∷ []) h = omega (arith, h)
Words-of n (a ∷ b ∷ []) h = omega (arith, h)
Words-of n (a ∷ b ∷ c ∷ []) h = omega (arith, h)
Words-of zero (a ∷ b ∷ c ∷ d ∷ bytes) h = absurd (omega (arith, h))
Words-of (suc n) (a ∷ b ∷ c ∷ d ∷ bytes) h = Words-of n bytes (omega (arith, h))

swap_words_twice : (bytes : List ℕ) → Words bytes → swap_words (swap_words bytes) ≡ bytes
unfolding swap_words
swap_words_twice [] h = refl
swap_words_twice (a ∷ []) h = absurd h
swap_words_twice (a ∷ b ∷ []) h = absurd h
swap_words_twice (a ∷ b ∷ c ∷ []) h = absurd h
swap_words_twice (a ∷ b ∷ c ∷ d ∷ bytes) h = ap (λ t. a ∷ b ∷ c ∷ d ∷ t) (swap_words_twice bytes h)

swap_words-length : (bytes : List ℕ) → Words bytes → length (swap_words bytes) ≡ length bytes
unfolding swap_words
swap_words-length [] h = refl
swap_words-length (a ∷ []) h = absurd h
swap_words-length (a ∷ b ∷ []) h = absurd h
swap_words-length (a ∷ b ∷ c ∷ []) h = absurd h
swap_words-length (a ∷ b ∷ c ∷ d ∷ bytes) h = omega (arith, swap_words-length bytes h)

swap_words-IsByte :
    (bytes : List ℕ) → Words bytes → All IsByte bytes → All IsByte (swap_words bytes)
unfolding swap_words
swap_words-IsByte [] h all = tt
swap_words-IsByte (a ∷ []) h all = absurd h
swap_words-IsByte (a ∷ b ∷ []) h all = absurd h
swap_words-IsByte (a ∷ b ∷ c ∷ []) h all = absurd h
swap_words-IsByte (a ∷ b ∷ c ∷ d ∷ bytes) h (ha, (hb, (hc, (hd, all)))) =
    (hd, (hc, (hb, (ha, swap_words-IsByte bytes h all))))

abbrev pub size_of : Bool → ℕ
size_of false = 4
size_of true = 16

size-Words : (ipv6 : Bool) (bytes : List ℕ) → length bytes ≡ size_of ipv6 → Words bytes
size-Words false bytes h = Words-of 1 bytes (omega (arith, h))
size-Words true bytes h = Words-of 4 bytes (omega (arith, h))

hex_word-bytes :
    (a b c d : ℕ)
    → IsByte a
    → IsByte b
    → IsByte c
    → hex_word (a + b * 256 + c * 65536 + d * 16777216) ≡ hex_bytes (d ∷ c ∷ b ∷ a ∷ [])
unfolding hex_word
hex_word-bytes a b c d ha hb hc =
    let n = a + b * 256 + c * 65536 + d * 16777216 in
    let first : n / 16777216 ≡ d = omega (arith, ha, hb, hc) in
    let second : n / 65536 % 256 ≡ c = omega (arith, ha, hb, hc) in
    let third : n / 256 % 256 ≡ b = omega (arith, ha, hb) in
    let last : n % 256 ≡ a = omega (arith, ha) in rw (first, second, third, last) refl

hex_bytes-append : (xs ys : List ℕ) → hex_bytes (xs ++ ys) ≡ hex_bytes xs ++ hex_bytes ys
unfolding hex_bytes
hex_bytes-append [] ys = refl
hex_bytes-append (x ∷ xs) ys =
    ap (λ t. hex_digit (x / 16) ∷ hex_digit (x % 16) ∷ t) (hex_bytes-append xs ys)

printed_address-hex_bytes :
    (bytes : List ℕ)
    → Words bytes
    → All IsByte bytes
    → printed_address bytes ≡ hex_bytes (swap_words bytes)
unfolding printed_address swap_words
printed_address-hex_bytes [] h all = unfold hex_bytes in refl
printed_address-hex_bytes (a ∷ []) h all = absurd h
printed_address-hex_bytes (a ∷ b ∷ []) h all = absurd h
printed_address-hex_bytes (a ∷ b ∷ c ∷ []) h all = absurd h
printed_address-hex_bytes (a ∷ b ∷ c ∷ d ∷ bytes) h (ha, (hb, (hc, (hd, all)))) =
    ap (λ t. t ++ printed_address bytes) (hex_word-bytes a b c d ha hb hc)
    ∙ ap (λ t. hex_bytes (d ∷ c ∷ b ∷ a ∷ []) ++ t) (printed_address-hex_bytes bytes h all)
    ∙ sym (hex_bytes-append (d ∷ c ∷ b ∷ a ∷ []) (swap_words bytes))

module _ (ip_string : List ℕ → Text) where
  ip_of-sized :
      (ipv6 : Bool) (raw : List ℕ)
      → length raw ≡ size_of ipv6
      → ip_of ip_string ipv6 (some raw) ≡ some (ip_string (swap_words raw))
  ip_of-sized false raw h = let e : (length raw == 4) ≡ true = ground (arith, h) in rw e refl
  ip_of-sized true raw h = let e : (length raw == 16) ≡ true = ground (arith, h) in rw e refl

  -- The address and the port that the kernel of a machine with the lowest byte first prints, each word
  -- of the address as one number, are read back, for both versions of IP.
  pub decode_socket_address-printed :
      (ipv6 : Bool) (bytes : List ℕ) (port : ℕ)
      → length bytes ≡ size_of ipv6
      → All IsByte bytes
      → port < 65536
      → decode_socket_address ip_string (printed_address bytes ++ b':' ∷ hex_port port) ipv6
        ≡ some (ip_string bytes, port)
  unfolding decode_socket_address decode_proc_ip
  decode_socket_address-printed ipv6 bytes port size all hp =
      let whole = size-Words ipv6 bytes size in
      let printed = swap_words-IsByte bytes whole all in
      rw
        (
          printed_address-hex_bytes bytes whole all,
          cut-append b':' (hex_bytes (swap_words bytes)) (hex_port port)
              (hex_bytes-Lacks (swap_words bytes) printed),
          parse_port-hex_port port hp,
          decode_hex-hex_bytes (swap_words bytes) printed,
          ip_of-sized ipv6 (swap_words bytes) (swap_words-length bytes whole ∙ size),
          swap_words_twice bytes whole,
        )
        refl

in_uint16_bound : (o : Option ℕ) (p : ℕ) → in_uint16 o ≡ some p → p < 65536
in_uint16_bound none p h = absurd (cc h)
in_uint16_bound (some v) p h = ground (arith, h)

-- A port that is read fits in sixteen bits.
pub parse_port_bound : (s : Text) (p : ℕ) → parse_port s ≡ some p → p < 65536
unfolding parse_port
parse_port_bound [] p h = absurd (cc h)
parse_port_bound (c ∷ s) p h = in_uint16_bound (parse_hex_from 0 (c ∷ s)) p h
