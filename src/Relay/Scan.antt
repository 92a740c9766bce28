-- ===== src/Relay/Scan.antt =====
-- components/wisp_relay/relay_types.c, and what the relay uses of the C library to read numbers out
-- of a text: strstr, strtoull, atoi, and sscanf with "%02x".
use tollgate_esp.Prelude.{
  ℕ, zero, suc, ◌+◌, ◌-◌, ◌*◌, ◌%◌, Bool, true, false, ◌&&◌, Option, none, some, List, [], ◌∷◌,
  ◌++◌, leb, ◌==◌, if◌then◌else◌, drop, length, replicate, Text,
}
use tollgate_esp.Prelude.Numbers.{atoi, digit, sign, skip_space}
use tollgate_esp.Prelude.Int.{ℤ}

-- What follows the prefix, where the text starts with it.
strip_prefix : Text → Text → Option Text
strip_prefix [] s = some s
strip_prefix (c ∷ p) [] = none
strip_prefix (c ∷ p) (d ∷ s) = if c == d then strip_prefix p s else none

-- strstr(s, p) + strlen(p): what follows the first occurrence.
unfoldable pub after_first : Text → Text → Option Text
unfolding strip_prefix
after_first p [] = strip_prefix p []
after_first p (c ∷ s) = elim (strip_prefix p (c ∷ s)) [ none ↦ after_first p s | some t ↦ some t ]

starts_digit : Text → Bool
unfolding digit
starts_digit [] = false
starts_digit (c ∷ s) = elim (digit c) [ none ↦ false | some d ↦ true ]

skip_digits : Text → Text
unfolding digit
skip_digits [] = []
skip_digits (c ∷ s) = elim (digit c) [ none ↦ c ∷ s | some d ↦ skip_digits s ]

-- What sscanf reads for "%d" and the text after it, `none` where it reads no number.
pub scan_int : Text → Option (ℤ × Text)
unfolding skip_space sign starts_digit skip_digits atoi
scan_int s =
    let t = (sign (skip_space s)).1 in if starts_digit t then some (atoi s, skip_digits t) else none

-- The bytes before the first `c`, at most n of them, as "%64[^:]" reads them for 64 and ':'.
pub scan_until : ℕ → ℕ → Text → Text
scan_until zero c s = []
scan_until (suc n) c [] = []
scan_until (suc n) c (d ∷ s) = if d == c then [] else d ∷ scan_until n c s

unfoldable pub hex_value : ℕ → Option ℕ
hex_value c =
    if leb b'0' c && leb c b'9'
    then some (c - b'0')
    else if leb b'a' c && leb c b'f'
    then some (c - b'a' + 10)
    else if leb b'A' c && leb c b'F'
    then some (c - b'A' + 10)
    else none

-- The second hexadecimal digit of a field of width 2, where there is one.
second_digit : ℕ → Text → ℕ
unfolding hex_value
second_digit n [] = n
second_digit n (c ∷ s) = elim (hex_value c) [ none ↦ n | some d ↦ n * 16 + d ]

one_digit : Text → Option ℕ
unfolding hex_value
one_digit [] = none
one_digit (c ∷ s) = hex_value c

hex_field : Text → Option ℕ
unfolding hex_value second_digit one_digit
hex_field [] = none
hex_field (c ∷ s) =
    if c == b'+'
    then one_digit s
    else if c == b'-'
    then elim (one_digit s) [ none ↦ none | some d ↦ some ((256 - d) % 256) ]
    else elim (hex_value c) [ none ↦ none | some d ↦ some (second_digit d s) ]

-- (uint8_t) of what sscanf(s, "%02x", &byte) reads, `none` where it does not return 1. White space
-- is skipped, and a sign takes one of the two places.
unfoldable pub scan_byte : Text → Option ℕ
unfolding skip_space hex_field
scan_byte s = hex_field (skip_space s)

-- The bytes that the loop of relay_hex_to_bytes writes before it returns.
unfoldable pub hex_bytes : ℕ → Text → List ℕ
unfolding scan_byte
hex_bytes zero s = []
hex_bytes (suc n) s = elim (scan_byte s) [ none ↦ [] | some b ↦ b ∷ hex_bytes n (drop 2 s) ]

-- relay_hex_to_bytes: `out` after the call, for an `out` of zeros, and whether it returned 0.
unfoldable pub relay_hex_to_bytes : Text → ℕ → ℕ → List ℕ × Bool
unfolding hex_bytes
relay_hex_to_bytes hex hex_len out_len =
    if hex_len == out_len * 2
    then (let bytes = hex_bytes out_len hex in
        (bytes ++ replicate (out_len - length bytes) 0, length bytes == out_len))
    else (replicate out_len 0, false)
