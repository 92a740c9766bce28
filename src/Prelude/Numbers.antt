-- ===== src/Prelude/Numbers.antt =====
-- What the code uses of the C library to read numbers out of a text and to print them.
use tollgate_esp.Prelude.Tests.{ltb, leb, ◌==◌, if◌then◌else◌, if_yes, if_no, Bool-cases}
use tollgate_esp.Prelude.Arrays.{length, length-append, count_if, count_if-append}
use tollgate_esp.Prelude.Options.{option_some}
use tollgate_esp.Prelude.Texts.{Text}
use tollgate_esp.Prelude.Filter.{append_assoc, append_nil}
use tollgate_esp.Prelude.Int.{ℤ, pos, negsuc}
use Prim.Native.Nat.{ℕ, zero, suc, ◌+◌, ◌-◌, ◌*◌, ◌/◌, ◌%◌, ◌^◌, ◌≤◌, ◌<◌}
use mathlib.Core.Path.{◌≡◌, refl, ap, sym, ◌∙◌}
use mathlib.Core.Logic.{inl, inr}
use mathlib.Core.Bool.{Bool, true, false, ◌&&◌, ◌||◌}
use mathlib.Core.Option.{Option, none, some}
use mathlib.Core.List.{[], ◌∷◌, ◌++◌}
use native.Mathlib.Omega.{arith}

-- isspace.
unfoldable pub is_space : ℕ → Bool
is_space c = c == 32 || leb 9 c && leb c 13

unfoldable pub skip_space : Text → Text
unfolding is_space
skip_space [] = []
skip_space (c ∷ s) = if is_space c then skip_space s else c ∷ s

-- A sign, and the text after it.
unfoldable pub sign : Text → Bool × Text
sign [] = (false, [])
sign (c ∷ s) = if c == b'-' then (true, s) else if c == b'+' then (false, s) else (false, c ∷ s)

unfoldable pub digit : ℕ → Option ℕ
digit c = if leb b'0' c && leb c b'9' then some (c - b'0') else none

-- The number whose decimal digits the text starts with, after the digits read so far.
unfoldable pub decimal : ℕ → Text → ℕ
unfolding digit
decimal n [] = n
decimal n (c ∷ s) = elim (digit c) [ none ↦ n | some d ↦ decimal (n * 10 + d) s ]

unfoldable pub saturated : ℕ → ℕ → ℕ
saturated top n = if leb n top then n else top

-- strtoull(s, NULL, 10): past the range it gives ULLONG_MAX, and a minus sign negates the word.
unfoldable pub strtoull : Text → ℕ
unfolding skip_space sign decimal saturated
strtoull s =
    let (is_negative, t) = sign (skip_space s) in
    let n = decimal 0 t in
    if ltb n (2 ^ 64) then (if is_negative then (2 ^ 64 - n) % 2 ^ 64 else n) else 2 ^ 64 - 1

-- atoi, with a 32-bit long: out of range it gives LONG_MAX or LONG_MIN.
unfoldable pub atoi : Text → ℤ
unfolding skip_space sign decimal saturated
atoi s =
    let (is_negative, t) = sign (skip_space s) in
    let n = decimal 0 t in
    if is_negative
    then (if n == 0 then pos 0 else negsuc (saturated (2 ^ 31) n - 1))
    else pos (saturated (2 ^ 31 - 1) n)

-- atoll: out of range it gives LLONG_MAX or LLONG_MIN.
unfoldable pub atoll : Text → ℤ
unfolding skip_space sign decimal saturated
atoll s =
    let (is_negative, t) = sign (skip_space s) in
    let n = decimal 0 t in
    if is_negative
    then (if n == 0 then pos 0 else negsuc (saturated (2 ^ 63) n - 1))
    else pos (saturated (2 ^ 63 - 1) n)

-- "%llu", of a number with at most n digits.
unfoldable pub to_decimal : ℕ → ℕ → Text
to_decimal zero v = []
to_decimal (suc n) v =
    if ltb v 10 then (b'0' + v) ∷ [] else to_decimal n (v / 10) ++ ((b'0' + v % 10) ∷ [])

abbrev pub ten_to : ℕ → ℕ
ten_to zero = 1
ten_to (suc n) = 10 * ten_to n

pub length-to_decimal : (n v : ℕ) → length (to_decimal n v) ≤ n
unfolding to_decimal
length-to_decimal zero v = omega arith
length-to_decimal (suc n) v = ground (
  arith,
  length-append (to_decimal n (v / 10)) ((b'0' + v % 10) ∷ []),
  length-to_decimal n (v / 10),
)

-- A test that no digit passes is passed nowhere in the text.
pub count_if-to_decimal :
    (p : ℕ → Bool) (n v : ℕ)
    → ((d : ℕ) → d < 10 → p (b'0' + d) ≡ false)
    → count_if p (to_decimal n v) ≡ 0
unfolding to_decimal count_if
count_if-to_decimal p zero v h = refl
count_if-to_decimal p (suc n) v h = elim (Bool-cases (ltb v 10)) [
  | inl small ↦ ground (arith, small, h v)
  | inr large ↦ ground (
    arith,
    large,
    count_if-append p (to_decimal n (v / 10)) ((b'0' + v % 10) ∷ []),
    count_if-to_decimal p n (v / 10) h,
    h (v % 10),
  )
]

-- The text starts with a digit.
pub to_decimal-head :
    (n v : ℕ) → (d : ℕ) × (t : Text) × (d < 10) × (to_decimal (suc n) v ≡ (b'0' + d) ∷ t)
unfolding to_decimal
to_decimal-head zero v = elim (Bool-cases (ltb v 10)) [
  | inl small ↦ (v, [], ground (arith, small), rw small refl)
  | inr large ↦ (v % 10, [], omega arith, rw large refl)
]
to_decimal-head (suc n) v =
    let (d, t, lt, front) = to_decimal-head n (v / 10) in
    elim (Bool-cases (ltb v 10)) [
      | inl small ↦ (v, [], ground (arith, small), rw small refl)
      | inr large ↦ (
        d,
        t ++ ((b'0' + v % 10) ∷ []),
        lt,
        if_no (ltb v 10) _ _ large ∙ ap (λ s. s ++ ((b'0' + v % 10) ∷ [])) front,
      )
    ]

digit-code : (d : ℕ) → d < 10 → digit (b'0' + d) ≡ some d
unfolding digit
digit-code d lt = ground arith

-- Reading the digits back, in front of any text.
decimal-digit :
    (m d : ℕ) (rest : Text) → d < 10 → decimal m ((b'0' + d) ∷ rest) ≡ decimal (m * 10 + d) rest
unfolding decimal
decimal-digit m d rest lt =
    option_some (digit (b'0' + d)) m (λ e. decimal (m * 10 + e) rest) d (digit-code d lt)

pub decimal-to_decimal :
    (n v : ℕ) (rest : Text)
    → v < ten_to n
    → 1 ≤ n
    → decimal 0 (to_decimal n v ++ rest) ≡ decimal v rest
unfolding to_decimal
decimal-to_decimal zero v rest lt some_digit = absurd (omega arith)
decimal-to_decimal (suc zero) v rest lt some_digit =
    ap (λ s. decimal 0 (s ++ rest)) (if_yes (ltb v 10) _ _ (ground (arith, lt)))
    ∙ decimal-digit 0 v rest (ground (arith, lt))
    ∙ ap (λ m. decimal m rest) {x = 0 * 10 + v} (omega arith)
decimal-to_decimal (suc (suc n)) v rest lt some_digit = elim (Bool-cases (ltb v 10)) [
  | inl small ↦
      ap (λ s. decimal 0 (s ++ rest)) (if_yes (ltb v 10) _ _ small)
      ∙ decimal-digit 0 v rest (ground (arith, small))
      ∙ ap (λ m. decimal m rest) {x = 0 * 10 + v} (omega arith)
  | inr large ↦
      ap (λ s. decimal 0 (s ++ rest)) (if_no (ltb v 10) _ _ large)
      ∙ ap (decimal 0) (append_assoc (to_decimal (suc n) (v / 10)) ((b'0' + v % 10) ∷ []) rest)
      ∙ decimal-to_decimal (suc n) (v / 10) ((b'0' + v % 10) ∷ rest) (omega (arith, lt))
          (omega arith)
      ∙ decimal-digit (v / 10) (v % 10) rest (omega arith)
      ∙ ap (λ m. decimal m rest) {x = v / 10 * 10 + v % 10} (omega arith)
]

decimal-nil : (v : ℕ) → decimal v [] ≡ v
unfolding decimal
decimal-nil v = refl

sign-code :
    (d : ℕ) (t : Text) → d < 10 → sign (skip_space ((b'0' + d) ∷ t)) ≡ (false, (b'0' + d) ∷ t)
unfolding sign skip_space is_space
sign-code d t lt = ground arith

saturated_small : (top n : ℕ) → n ≤ top → saturated top n ≡ n
unfolding saturated
saturated_small top n le = ground arith

-- A number that fits int64_t is read back as it was printed.
pub atoll-to_decimal :
    (n v : ℕ) → v < ten_to (suc n) → v < 2 ^ 63 → atoll (to_decimal (suc n) v) ≡ pos v
unfolding atoll
atoll-to_decimal n v fits small =
    let (d, t, lt, front) = to_decimal-head n v in
    let plain : sign (skip_space (to_decimal (suc n) v)) ≡ (false, to_decimal (suc n) v) =
      ap (λ s. sign (skip_space s)) front ∙ sign-code d t lt ∙ ap (λ s. (false, s)) (sym front) in
    let read : decimal 0 (to_decimal (suc n) v) ≡ v =
      ap (decimal 0) (sym (append_nil (to_decimal (suc n) v)))
      ∙ decimal-to_decimal (suc n) v [] fits (omega arith)
      ∙ decimal-nil v in
    ap
      (λ r.
        if r.0
        then (if decimal 0 (r.1) == 0
            then pos 0
            else negsuc (saturated (2 ^ 63) (decimal 0 (r.1)) - 1))
        else pos (saturated (2 ^ 63 - 1) (decimal 0 (r.1))))
      plain
    ∙ ap (λ m. pos (saturated (2 ^ 63 - 1) m)) read
    ∙ ap pos (saturated_small (2 ^ 63 - 1) v (omega (arith, small)))
