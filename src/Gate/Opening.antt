-- ===== src/Gate/Opening.antt =====
-- What opening a slot does to the tables.
use tollgate_esp.Prelude.{
  ℕ, suc, ◌+◌, ◌<◌, ◌≡◌, ◌∙◌, Bool, false, some, arith, ltb, leb, ◌==◌, ◌||◌, if◌then◌else◌, length,
  modify, get_elem?, length-modify, count_if-modify, count_if-le,
}
use tollgate_esp.Gate.State.{Gate, Session, Env, max_clients}
use tollgate_esp.Gate.Session.{serves, open_at, opened, active_count}
use tollgate_esp.Gate.Invariant.{grants, holders, InStep, IsSound, IsPaidOnly}
use tollgate_esp.Gate.Grants.{
  SameRest, fw_grant-SameRest, fw_grant-InStep, grants-fw_grant, length-fw_grant,
}

abbrev is_active : Session → Bool
is_active s = s.active

-- The state just before the grant.
abbrev filled : Env → ℕ → ℕ → ℕ → Gate → Gate
filled e ip ms i g = record g {
  sessions = modify g.sessions i (opened e g ip ms);
  session_count = g.session_count + 1;
}

module _ (e : Env) (ip ms i : ℕ) (s : Session) (g : Gate) (at : get_elem? g.sessions i ≡ some s)
    (off : s.active ≡ false) where
  sessions-open_at : (open_at e ip ms i g).sessions ≡ modify g.sessions i (opened e g ip ms)
  unfolding open_at
  sessions-open_at = SameRest.sessions_same (fw_grant-SameRest e ip (filled e ip ms i g))

  pub holders-open_at :
      (j : ℕ)
      → holders j (open_at e ip ms i g) ≡ (if ip == j then suc (holders j g) else holders j g)
  unfolding opened
  holders-open_at j =
      rw sessions-open_at
        (ground (arith, off, count_if-modify (serves j) g.sessions i (opened e g ip ms) s at))

  active_count-open_at : active_count (open_at e ip ms i g) ≡ suc (active_count g)
  unfolding opened active_count
  active_count-open_at =
      rw sessions-open_at
        (ground (arith, off, count_if-modify is_active g.sessions i (opened e g ip ms) s at))

  -- A table with a free slot is not full of active sessions.
  active_count-lt : active_count g < length g.sessions
  unfolding opened active_count
  active_count-lt = ground (
    arith,
    off,
    count_if-modify is_active g.sessions i (opened e g ip ms) s at,
    count_if-le is_active (modify g.sessions i (opened e g ip ms)),
    length-modify g.sessions i (opened e g ip ms),
  )

  session_count-open_at : (open_at e ip ms i g).session_count ≡ g.session_count + 1
  unfolding open_at
  session_count-open_at = SameRest.count_same (fw_grant-SameRest e ip (filled e ip ms i g))

  pub grants-open_at :
      (j : ℕ)
      → grants j (open_at e ip ms i g) ≡ (
          if ltb 0 (grants ip g) || leb max_clients (length g.clients)
          then grants j g
          else if ip == j
          then suc (grants j g)
          else grants j g)
  unfolding open_at
  grants-open_at j = grants-fw_grant e ip j (filled e ip ms i g)

  length_clients-open_at : length (open_at e ip ms i g).clients ≡ (
      if ltb 0 (grants ip g) || leb max_clients (length g.clients)
      then length g.clients
      else suc (length g.clients))
  unfolding open_at
  length_clients-open_at = length-fw_grant e ip (filled e ip ms i g)

  open_at-InStep : InStep g → InStep (open_at e ip ms i g)
  unfolding open_at
  open_at-InStep v =
      fw_grant-InStep e ip (filled e ip ms i g)
        (record { fits = v.fits; lengths = v.lengths; agree = v.agree; once = v.once })

  -- An address without a session may be given a free slot.
  pub open_at-IsSound : IsSound g → holders ip g ≡ 0 → IsSound (open_at e ip ms i g)
  open_at-IsSound v z = record {
    slots = rw sessions-open_at (length-modify g.sessions i (opened e g ip ms) ∙ v.slots);
    counted = omega (arith, v.counted, session_count-open_at, active_count-open_at);
    one_session = λ j. ground (arith, z, v.one_session j, holders-open_at j);
    in_step = open_at-InStep v.in_step;
  }

  pub open_at-IsPaidOnly : IsPaidOnly g → holders ip g ≡ 0 → IsPaidOnly (open_at e ip ms i g)
  open_at-IsPaidOnly v z = record {
    sound = open_at-IsSound v.sound z;
    exact = λ j. ground (
      arith,
      z,
      v.exact j,
      v.exact ip,
      v.as_many,
      v.sound.counted,
      v.sound.slots,
      active_count-lt,
      grants-open_at j,
      holders-open_at j,
    );
    as_many = ground (
      arith,
      z,
      v.exact ip,
      v.as_many,
      v.sound.counted,
      v.sound.slots,
      active_count-lt,
      length_clients-open_at,
      session_count-open_at,
    );
  }
