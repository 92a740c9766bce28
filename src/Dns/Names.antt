-- ===== src/Dns/Names.antt =====
-- parse_dns_name of tollgate_core_dns.c: when the reading of a name ends.
use tollgate_esp.Prelude.{
  ℕ, zero, suc, ◌+◌, ◌-◌, ◌*◌, ◌/◌, ◌%◌, ◌≤◌, ◌<◌, ◌≡◌, refl, Bool, false, ◌&&◌, none, some, List,
  [], ◌∷◌, ◌++◌, ltb, ◌==◌, length, Text, arith, Bool-cases, inl, inr, ◌⊎◌, count_if,
}
use tollgate_esp.Ehash.Packet.{byte_at}
use tollgate_esp.Dns.Queries.{copy_label, ended, at, dotted, name_step, name_loop, pair_at}

-- The step at a pointer that leads to its own place.
step_self :
    (buf : List ℕ) (n pos : ℕ) (out : Text)
    → pos < n
    → length out < 255
    → byte_at buf pos / 64 % 4 ≡ 3
    → byte_at buf pos % 64 * 256 + byte_at buf (pos + 1) ≡ pos
    → name_step buf n pos out ≡ at pos out
unfolding name_step
step_self buf n pos out inside room pointer self = ground (arith, self)

-- A compression pointer that leads to its own place keeps parse_dns_name there for any number of
-- rounds.
pub name_loop_stuck :
    (fuel : ℕ) (buf : List ℕ) (n pos : ℕ) (out : Text)
    → pos < n
    → length out < 255
    → byte_at buf pos / 64 % 4 ≡ 3
    → byte_at buf pos % 64 * 256 + byte_at buf (pos + 1) ≡ pos
    → name_loop fuel buf n pos out ≡ none
unfolding name_loop
name_loop_stuck zero buf n pos out inside room pointer self = refl
name_loop_stuck (suc fuel) buf n pos out inside room pointer self =
    rw (step_self buf n pos out inside room pointer self, name_loop)
      (name_loop_stuck fuel buf n pos out inside room pointer self)

copy_label-le :
    (buf : List ℕ) (n left pos : ℕ) (out : Text) → pos ≤ (copy_label buf n left pos out).0
unfolding copy_label
copy_label-le buf n zero pos out = omega arith
copy_label-le buf n (suc left) pos out =
    ground (arith, copy_label-le buf n left (pos + 1) (out ++ (byte_at buf pos ∷ [])))

pair_at-next : (p : ℕ × Text) → pair_at p ≡ at p.0 p.1
unfolding pair_at
pair_at-next (pos, out) = refl

-- Where the byte is not a pointer, a round ends or goes on behind it.
step_on :
    (buf : List ℕ) (n pos : ℕ) (out : Text)
    → byte_at buf pos / 64 % 4 == 3 ≡ false
    → (name_step buf n pos out ≡ ended)
      ⊎ ((p : ℕ) × (t : Text) × (name_step buf n pos out ≡ at p t) × (pos < p) × (pos < n))
unfolding name_step
step_on buf n pos out plain = elim (Bool-cases (ltb pos n && ltb (length out) 255)) [
  | inr over ↦ inl (rw over refl)
  | inl inside ↦ elim (Bool-cases (byte_at buf pos == 0)) [
    | inl zero_ ↦ inl (rw (inside, zero_) refl)
    | inr more ↦
        let q = copy_label buf n (byte_at buf pos) (pos + 1) (dotted out) in
        inr (
          q.0,
          q.1,
          rw (inside, more, plain) (pair_at-next q),
          omega (arith, copy_label-le buf n (byte_at buf pos) (pos + 1) (dotted out)),
          ground (arith, inside),
        )
  ]
]

-- The two high bits of a byte mark a pointer.
unfoldable pub is_pointer : ℕ → Bool
is_pointer b = b / 64 % 4 == 3

no_pointer :
    (buf : List ℕ) (i : ℕ) → count_if is_pointer buf ≡ 0 → byte_at buf i / 64 % 4 == 3 ≡ false
unfolding count_if is_pointer byte_at
no_pointer [] i none_ = refl
no_pointer (b ∷ buf) zero none_ = ground (arith, none_)
no_pointer (b ∷ buf) (suc i) none_ = no_pointer buf i (ground (arith, none_))

-- In a datagram without a byte that marks a compression pointer parse_dns_name ends, within as many
-- rounds as there are bytes left and one.
pub name_loop_ends :
    (fuel : ℕ) (buf : List ℕ) (n pos : ℕ) (out : Text)
    → count_if is_pointer buf ≡ 0
    → n - pos < fuel
    → (name : Text) × (name_loop fuel buf n pos out ≡ some name)
unfolding name_loop
name_loop_ends zero buf n pos out plain enough = absurd (omega arith)
name_loop_ends (suc fuel) buf n pos out plain enough =
    elim (step_on buf n pos out (no_pointer buf pos plain)) [
      | inl over ↦ (out, rw (over, name_loop) refl)
      | inr (p, t, next, further, inside) ↦
          let (name, done) = name_loop_ends fuel buf n p t plain (omega arith) in
          (name, rw (next, name_loop) done)
    ]
