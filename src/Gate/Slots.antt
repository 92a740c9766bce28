-- ===== src/Gate/Slots.antt =====
-- What closing, opening and rewriting a slot do to the counts of the session table.
use tollgate_esp.Prelude.{
  ℕ, ◌-◌, ◌≤◌, ◌≡◌, refl, subst, ◌∙◌, inl, inr, Bool, true, some, arith, ltb, ◌==◌, if◌then◌else◌,
  Bool-cases, Option-cases, length, modify, get_elem?, length-modify, count_if-modify,
}
use tollgate_esp.Gate.State.{Gate, Session}
use tollgate_esp.Gate.Session.{serves, closed, close_slot, revoke, active_count}
use tollgate_esp.Gate.Invariant.{grants, holders, InStep, IsSound, IsPaidOnly}
use tollgate_esp.Gate.Grants.{
  SameRest, fw_revoke-SameRest, fw_revoke-InStep, grants-fw_revoke, length-fw_revoke,
}

abbrev pub is_active : Session → Bool
is_active s = s.active

module _ (i : ℕ) (s : Session) (g : Gate) (at : get_elem? g.sessions i ≡ some s) where
  pub holders-close_slot :
      (j : ℕ)
      → s.active ≡ true
      → holders j (close_slot i s.client_ip g)
        ≡ (if s.client_ip == j then holders j g - 1 else holders j g)
  unfolding close_slot
  holders-close_slot j on =
      rw (SameRest.sessions_same (fw_revoke-SameRest s.client_ip g))
        (ground (arith, count_if-modify (serves j) g.sessions i closed s at))

  pub active_count-close_slot :
      s.active ≡ true → active_count (close_slot i s.client_ip g) ≡ active_count g - 1
  unfolding close_slot active_count
  active_count-close_slot on =
      rw (SameRest.sessions_same (fw_revoke-SameRest s.client_ip g))
        (ground (arith, count_if-modify is_active g.sessions i closed s at))

  -- An active session counts for its address.
  pub holder_of_active : s.active ≡ true → 1 ≤ holders s.client_ip g
  holder_of_active on =
      ground (arith, count_if-modify (serves s.client_ip) g.sessions i closed s at)

  pub active_of_active : s.active ≡ true → 1 ≤ active_count g
  unfolding active_count
  active_of_active on = ground (arith, count_if-modify is_active g.sessions i closed s at)

-- A revoke closes an active slot, or does nothing.
pub revoke_cases {ℓ} :
    (P : Gate → Type ℓ) (i : ℕ) (g : Gate)
    → P g
    → ((s : Session)
        → get_elem? g.sessions i ≡ some s
        → s.active ≡ true
        → P (close_slot i s.client_ip g))
    → P (revoke i g)
unfolding revoke
revoke_cases P i g idle close = elim (Option-cases (get_elem? g.sessions i)) [
  | inl e ↦ rw (e, revoke) idle
  | inr (s, e) ↦ elim (Bool-cases s.active) [
    | inl on ↦ rw (e, revoke) (rw on (close s e on))
    | inr off ↦ rw (e, revoke) (rw off idle)
  ]
]

pub revoke_active :
    (i : ℕ) (s : Session) (g : Gate)
    → get_elem? g.sessions i ≡ some s
    → s.active ≡ true
    → revoke i g ≡ close_slot i s.client_ip g
unfolding revoke
revoke_active i s g at on = rw (at, revoke) (rw on refl)

length-close_slot : (i ip : ℕ) (g : Gate) → length (close_slot i ip g).sessions ≡ length g.sessions
unfolding close_slot
length-close_slot i ip g =
    rw (SameRest.sessions_same (fw_revoke-SameRest ip g)) (length-modify g.sessions i closed)

close_slot-InStep : (i ip : ℕ) (g : Gate) → InStep g → InStep (close_slot i ip g)
unfolding close_slot
close_slot-InStep i ip g v =
    let w = fw_revoke-InStep ip g v in
    record { fits = w.fits; lengths = w.lengths; agree = w.agree; once = w.once }

session_count-close_slot :
    (i ip : ℕ) (g : Gate) → (close_slot i ip g).session_count ≡ g.session_count - 1
unfolding close_slot
session_count-close_slot i ip g = ground (arith, fw_revoke-SameRest ip g)

-- Closing leaves the grants of other addresses.
pub grants-close_slot :
    (i ip j : ℕ) (g : Gate)
    → grants j (close_slot i ip g) ≡ (if ip == j then grants j g - 1 else grants j g)
unfolding close_slot
grants-close_slot i ip j g = grants-fw_revoke ip j g

length_clients-close_slot :
    (i ip : ℕ) (g : Gate)
    → length (close_slot i ip g).clients
      ≡ (if ltb 0 (grants ip g) then length g.clients - 1 else length g.clients)
unfolding close_slot
length_clients-close_slot i ip g = length-fw_revoke ip g

pub revoke-IsSound : (i : ℕ) (g : Gate) → IsSound g → IsSound (revoke i g)
revoke-IsSound i g v = revoke_cases IsSound i g v λ s at on. record {
  slots = length-close_slot i s.client_ip g ∙ v.slots;
  counted = omega (
    arith,
    v.counted,
    session_count-close_slot i s.client_ip g,
    active_count-close_slot i s g at on,
  );
  one_session = λ j. ground (arith, v.one_session j, holders-close_slot i s g at j on);
  in_step = close_slot-InStep i s.client_ip g v.in_step;
}

pub revoke-IsPaidOnly : (i : ℕ) (g : Gate) → IsPaidOnly g → IsPaidOnly (revoke i g)
revoke-IsPaidOnly i g v = revoke_cases IsPaidOnly i g v λ s at on. record {
  sound = subst IsSound (revoke_active i s g at on) (revoke-IsSound i g v.sound);
  exact = λ j.
      ground
        (arith, v.exact j, grants-close_slot i s.client_ip j g, holders-close_slot i s g at j on);
  as_many = ground (
    arith,
    v.exact s.client_ip,
    v.as_many,
    holder_of_active i s g at on,
    length_clients-close_slot i s.client_ip g,
    session_count-close_slot i s.client_ip g,
  );
}

pub close_slot-sessions :
    (i ip : ℕ) (g : Gate) → (close_slot i ip g).sessions ≡ modify g.sessions i closed
unfolding close_slot
close_slot-sessions i ip g = rw (SameRest.sessions_same (fw_revoke-SameRest ip g))

close_slot-platform : (i ip : ℕ) (g : Gate) → (close_slot i ip g).platform_set ≡ g.platform_set
unfolding close_slot
close_slot-platform i ip g = SameRest.platform_same (fw_revoke-SameRest ip g)

pub revoke-platform : (i : ℕ) (g : Gate) → (revoke i g).platform_set ≡ g.platform_set
revoke-platform i g =
    revoke_cases (λ h. h.platform_set ≡ g.platform_set) i g refl
      λ s at on. close_slot-platform i s.client_ip g

pub close_slot-ap_ip : (i ip : ℕ) (g : Gate) → (close_slot i ip g).ap_ip ≡ g.ap_ip
unfolding close_slot
close_slot-ap_ip i ip g = SameRest.ap_same (fw_revoke-SameRest ip g)
