-- ===== src/Gate/Upkeep.antt =====
-- Every operation on the session table keeps the tables sound, and, of the operations that pay or
-- expire, keeps the firewall in step with the sessions.
use tollgate_esp.Prelude.{
  ℕ, zero, suc, ◌≡◌, sym, ◌∙◌, inl, inr, ◌&&◌, Option, none, some, arith, leb, Bool-cases, modify,
  get_elem?, length-modify, count_if-modify_same, find_index, find_index_miss,
}
use tollgate_esp.Gate.State.{Gate, Session, Env, session_max_clients}
use tollgate_esp.Gate.Session.{
  serves, revoke, active_count, make_room, find_by_ip, is_expired, evictable, revoke_found,
  check_read, check_slot, check_from, session_tick, session_revoke_all, revoke_from,
}
use tollgate_esp.Gate.Invariant.{holders, IsSound, IsPaidOnly}

-- A rewrite of a session that leaves its address and its state.
abbrev pub Keeps : (Session → Session) → Type 0
Keeps f = (s : Session) → ((f s).client_ip ≡ s.client_ip) × ((f s).active ≡ s.active)

abbrev pub rewritten : ℕ → (Session → Session) → Gate → Gate
rewritten i f g = record g { sessions = modify g.sessions i f }

module _ (i : ℕ) (f : Session → Session) (g : Gate) (keeps : Keeps f) where
  pub holders-rewritten : (j : ℕ) → holders j (rewritten i f g) ≡ holders j g
  holders-rewritten j =
      count_if-modify_same (serves j) f g.sessions i λ s. rw ((keeps s).0, (keeps s).1)

  active_count-rewritten : active_count (rewritten i f g) ≡ active_count g
  unfolding active_count
  active_count-rewritten = count_if-modify_same (λ s. s.active) f g.sessions i λ s. (keeps s).1

  pub rewritten-IsSound : IsSound g → IsSound (rewritten i f g)
  rewritten-IsSound v = record {
    slots = length-modify g.sessions i f ∙ v.slots;
    counted = omega (arith, v.counted, active_count-rewritten);
    one_session = λ j. omega (arith, v.one_session j, holders-rewritten j);
    in_step = record {
      fits = v.in_step.fits;
      lengths = v.in_step.lengths;
      agree = v.in_step.agree;
      once = v.in_step.once;
    };
  }

  pub rewritten-IsPaidOnly : IsPaidOnly g → IsPaidOnly (rewritten i f g)
  rewritten-IsPaidOnly v = record {
    sound = rewritten-IsSound v.sound;
    exact = λ j. v.exact j ∙ sym (holders-rewritten j);
    as_many = v.as_many;
  }

-- The search finds no session exactly where the address has none.
pub find_by_ip-none : (ip : ℕ) (g : Gate) → find_by_ip ip g ≡ none → holders ip g ≡ 0
unfolding find_by_ip
find_by_ip-none ip g e = find_index_miss (serves ip) g.sessions e

-- What revoking any slot keeps is kept when room is made, and by a tick.
module _ {ℓ} (P : Gate → Type ℓ) (keep : (i : ℕ) (g : Gate) → P g → P (revoke i g)) where
  pub make_room_keeps : (e : Env) (g : Gate) → P g → P (make_room e g)
  unfolding make_room
  make_room_keeps e g h = elim (Bool-cases (leb session_max_clients g.session_count)) [
    | inl full ↦ rw full (found (find_index (evictable e g) g.sessions))
    | inr room ↦ rw room h
  ]
    where
      found : (o : Option ℕ) → P (revoke_found o g)
      found none = h
      found (some i) = keep i g h

  check_slot_keeps : (e : Env) (i : ℕ) (g : Gate) → P g → P (check_slot e i g)
  unfolding check_slot
  check_slot_keeps e i g h = read (get_elem? g.sessions i)
    where
      read : (o : Option Session) → P (check_read e i o g)
      read none = h
      read (some s) = elim (Bool-cases (s.active && is_expired e g s)) [
        | inl out ↦ rw out (keep i g h)
        | inr kept ↦ rw kept h
      ]

  check_from_keeps : (e : Env) (n i : ℕ) (g : Gate) → P g → P (check_from e n i g)
  unfolding check_from
  check_from_keeps e zero i g h = h
  check_from_keeps e (suc n) i g h =
      check_from_keeps e n (suc i) (check_slot e i g) (check_slot_keeps e i g h)

  pub session_tick_keeps : (e : Env) (g : Gate) → P g → P (session_tick e g)
  unfolding session_tick
  session_tick_keeps e g h = check_from_keeps e session_max_clients 0 g h

  revoke_from_keeps : (n i : ℕ) (g : Gate) → P g → P (revoke_from n i g)
  unfolding revoke_from
  revoke_from_keeps zero i g h = h
  revoke_from_keeps (suc n) i g h = revoke_from_keeps n (suc i) (revoke i g) (keep i g h)

  pub session_revoke_all_keeps : (g : Gate) → P g → P (session_revoke_all g)
  unfolding session_revoke_all
  session_revoke_all_keeps g h = revoke_from_keeps session_max_clients 0 g h
