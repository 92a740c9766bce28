-- ===== src/Mining/Difficulty.antt =====
-- tollgate_core_mining.c: the bounds of the difficulty, and where it depends on the machine.
use tollgate_esp.Prelude.{
  ℕ, ◌-◌, ◌*◌, ◌/◌, ◌%◌, ◌^◌, ◌≤◌, ◌<◌, ◌≡◌, ap, sym, ◌∙◌, if_yes, if◌then◌else◌, true, leb, ltb,
  ◌==◌, if-cases, arith,
}
use native.Mathlib.Nat.{div-le_self, le-div_iff_mul-le}
use tollgate_esp.Mining.{
  Machine, nbits_to_difficulty, of_target, shift_left, by_mantissa, uint64_max,
}

-- A difficulty that is one.
abbrev IsDifficulty : ℕ → Type 0
IsDifficulty d = (1 ≤ d) × (d < 2 ^ 64)

of_target-IsDifficulty : (target : ℕ) → IsDifficulty (of_target target)
unfolding of_target
of_target-IsDifficulty target =
    let below : 0xFFFF0000 / target ≤ 0xFFFF0000 = div-le_self 0xFFFF0000 target in
    if-cases IsDifficulty (target == 0) uint64_max _ (λ z. (omega arith, omega arith))
      (λ nz.
        if-cases IsDifficulty (0xFFFF0000 / target == 0) 1 (0xFFFF0000 / target)
          (λ h. (omega arith, omega arith)) (λ h. (ground (arith, h), omega (arith, below))))

by_mantissa-IsDifficulty : (mantissa : ℕ) → mantissa < 2 ^ 23 → IsDifficulty (by_mantissa mantissa)
unfolding by_mantissa
by_mantissa-IsDifficulty mantissa h =
    let below : 0xFFFF0000 / mantissa ≤ 0xFFFF0000 = div-le_self 0xFFFF0000 mantissa in
    if-cases IsDifficulty (mantissa == 0) uint64_max _ (λ z. (omega arith, omega arith))
      (λ nz.
        let some_bit : 0 < mantissa = ground (arith, nz) in
        ((le-div_iff_mul-le some_bit).1 (omega (arith, h)), omega (arith, below)))

module _ (M : Machine) where
  nbits_to_difficulty-IsDifficulty : (nbits : ℕ) → IsDifficulty (nbits_to_difficulty M nbits)
  unfolding nbits_to_difficulty
  nbits_to_difficulty-IsDifficulty nbits =
      let e = nbits / 2 ^ 24 % 256 in
      let m = nbits % 2 ^ 23 / 2 ^ (8 * (3 - e)) in
      let fits : m ≤ nbits % 2 ^ 23 = div-le_self (nbits % 2 ^ 23) (2 ^ (8 * (3 - e))) in
      let short : nbits % 2 ^ 23 < 2 ^ 23 = omega arith in
      if-cases IsDifficulty (nbits == 0) uint64_max _ (λ z. (omega arith, omega arith))
        (λ nz.
          if-cases IsDifficulty (leb e 3) (by_mantissa m) _
            (λ h. by_mantissa-IsDifficulty m (omega (arith, fits, short)))
            (λ h. of_target-IsDifficulty (shift_left M (nbits % 2 ^ 23) (8 * (e - 3)))))

-- Every other machine makes the same shift by less than 64 bits.
shift_left_same :
    (M N : Machine) (value n : ℕ) → n < 64 → shift_left M value n ≡ shift_left N value n
unfolding shift_left
shift_left_same M N value n short =
    let yes : ltb n 64 ≡ true = ground (arith, short) in
    ap (λ v. v % 2 ^ 64)
      (if_yes (ltb n 64) (value * 2 ^ n) _ yes ∙ sym (if_yes (ltb n 64) (value * 2 ^ n) _ yes))

-- On every machine the difficulty of a word of 32 bits is positive and fits 64 bits, whatever the
-- machine makes of an undefined shift; where the exponent, the upper byte, is below 11, all machines
-- give the same difficulty.
pub nbits_to_difficulty-bounds :
    (M : Machine) (nbits : ℕ)
    → (1 ≤ nbits_to_difficulty M nbits)
      × (nbits_to_difficulty M nbits < 2 ^ 64)
      × ((N : Machine)
          → nbits / 2 ^ 24 % 256 < 11
          → nbits_to_difficulty M nbits ≡ nbits_to_difficulty N nbits)
unfolding nbits_to_difficulty
nbits_to_difficulty-bounds M nbits =
    let d = nbits_to_difficulty-IsDifficulty M nbits in
    (
      d.0,
      d.1,
      λ N low.
          let e = nbits / 2 ^ 24 % 256 in
          let mantissa = nbits % 2 ^ 23 in
          ap
            (λ t.
              if nbits == 0
              then uint64_max
              else if leb e 3
              then by_mantissa (mantissa / 2 ^ (8 * (3 - e)))
              else of_target t)
            (shift_left_same M N mantissa (8 * (e - 3)) (omega (arith, low))),
    )
