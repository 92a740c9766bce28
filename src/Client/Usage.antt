-- ===== src/Client/Usage.antt =====
-- components/tollgate_core/src/tollgate_core_portal.c: what a gate answers to /usage; and how
-- components/tollgate_core/src/tollgate_core_client.c reads it.
use tollgate_esp.Prelude.{
  ℕ, ◌+◌, ◌-◌, ◌^◌, ◌<◌, ◌≡◌, refl, ap, ◌∙◌, Option, none, some, [], ◌∷◌, ◌++◌, leb, ◌==◌,
  if◌then◌else◌, if_no, count_if, length, take, take_ge, Text, codes, text_eq, option_some, arith,
}
use tollgate_esp.Prelude.Int.{ℤ, pos, negsuc, ◌-ℤ◌, to_int64}
use tollgate_esp.Prelude.Numbers.{
  atoll, to_decimal, atoll-to_decimal, count_if-to_decimal, length-to_decimal,
}
use tollgate_esp.Gate.State.{Session}

-- `if (remaining < 0) remaining = 0`.
unfoldable pub at_least_zero : ℤ → ℤ
at_least_zero (pos n) = pos n
at_least_zero (negsuc n) = pos 0

-- tollgate_core_portal_calc_usage of a session that is active: what remains, and the total.
unfoldable pub usage_of : Session → Text → ℤ → ℤ × ℤ
unfolding at_least_zero
usage_of session metric now_ms =
    if text_eq metric (codes "bytes")
    then (
      at_least_zero (to_int64 session.allotment_bytes -ℤ to_int64 session.bytes_consumed),
      to_int64 session.allotment_bytes,
    )
    else (
      at_least_zero (to_int64 session.allotment_ms -ℤ (now_ms -ℤ session.start_time_ms)),
      to_int64 session.allotment_ms,
    )

-- tollgate_core_portal_calc_usage.
unfoldable pub calc_usage : Option Session → Text → ℤ → Option (ℤ × ℤ)
unfolding usage_of
calc_usage none metric now_ms = none
calc_usage (some session) metric now_ms =
    if session.active then some (usage_of session metric now_ms) else none

-- "%lld", and "%llu" of an int64_t that is cast to unsigned long long.
unfoldable pub print_signed : ℤ → Text
print_signed (pos n) = to_decimal 20 n
print_signed (negsuc n) = b'-' ∷ to_decimal 20 (n + 1)

unfoldable pub print_unsigned : ℤ → Text
print_unsigned (pos n) = to_decimal 20 n
print_unsigned (negsuc n) = to_decimal 20 (2 ^ 64 - n - 1)

-- tollgate_core_portal_format_usage, into a buffer of 64 bytes, which the text fits.
unfoldable pub format_usage : Option Session → Text → ℤ → Text
unfolding calc_usage print_signed print_unsigned
format_usage session metric now_ms = elim (calc_usage session metric now_ms) [
  | none ↦ codes "-1/-1"
  | some (remaining, total) ↦ print_signed remaining ++ b'/' ∷ print_unsigned total
]

-- The text before the first '/', and the text after it.
unfoldable pub split_slash : Text → Option (Text × Text)
split_slash [] = none
split_slash (c ∷ s) =
    if c == b'/'
    then some ([], s)
    else elim (split_slash s) [ none ↦ none | some (front, rest) ↦ some (c ∷ front, rest) ]

-- tollgate_core_client_parse_usage.
unfoldable pub parse_usage : Text → Option (ℤ × ℤ)
unfolding split_slash
parse_usage resp = elim (split_slash resp) [
  | none ↦ none
  | some (front, rest) ↦
      if leb 32 (length front) then none else some (atoll front, atoll (take 31 rest))
]

split_slash-append :
    (front rest : Text)
    → count_if (λ c. c == b'/') front ≡ 0
    → split_slash (front ++ b'/' ∷ rest) ≡ some (front, rest)
unfolding split_slash count_if
split_slash-append [] rest h = refl
split_slash-append (c ∷ front) rest h = ground (arith, split_slash-append front rest)

parse_usage-printed :
    (r t : ℕ)
    → r < 2 ^ 63
    → t < 2 ^ 63
    → parse_usage (to_decimal 20 r ++ b'/' ∷ to_decimal 20 t) ≡ some (pos r, pos t)
unfolding parse_usage
parse_usage-printed r t small_r small_t =
    let front = to_decimal 20 r in
    let rest = to_decimal 20 t in
    let no_slash = count_if-to_decimal (λ c. c == b'/') 20 r (λ d lt. ground arith) in
    option_some (split_slash (front ++ b'/' ∷ rest)) none _ (front, rest)
      (split_slash-append front rest no_slash)
    ∙ if_no (leb 32 (length front)) none _ (ground (arith, length-to_decimal 20 r))
    ∙ ap (λ s. some (atoll front, atoll s))
        (take_ge 31 rest (omega (arith, length-to_decimal 20 t)))
    ∙ ap (λ x. some (x, atoll rest)) (atoll-to_decimal 19 r (omega (arith, small_r)) small_r)
    ∙ ap (λ x. some (pos r, x)) (atoll-to_decimal 19 t (omega (arith, small_t)) small_t)

-- What a gate prints for a session, where what remains and the total are both below 2^63, is what
-- the client reads out of the answer.
pub parse_usage-format_usage :
    (session : Option Session) (metric : Text) (now_ms : ℤ) (r t : ℕ)
    → calc_usage session metric now_ms ≡ some (pos r, pos t)
    → r < 2 ^ 63
    → t < 2 ^ 63
    → parse_usage (format_usage session metric now_ms) ≡ some (pos r, pos t)
unfolding format_usage print_signed print_unsigned
parse_usage-format_usage session metric now_ms r t used small_r small_t =
    ap parse_usage (option_some (calc_usage session metric now_ms) _ _ (pos r, pos t) used)
    ∙ parse_usage-printed r t small_r small_t

pub parse_usage-none :
    (metric : Text) (now_ms : ℤ)
    → parse_usage (format_usage none metric now_ms) ≡ some (negsuc 0, negsuc 0)
unfolding parse_usage format_usage calc_usage atoll split_slash
parse_usage-none metric now_ms = refl
