-- ===== src/Gate/Tick.antt =====
-- tollgate_core_session_tick: which sessions it closes.
use mathlib.Core.Path.{fun_ext, ap₂}
use tollgate_esp.Prelude.{
  ℕ, zero, suc, ◌≡◌, refl, sym, ap, subst, ◌∙◌, inl, inr, Bool, not, ◌&&◌, Option, none, some, map,
  arith, ltb, if◌then◌else◌, Bool-cases, Option-cases, modify, get_elem?, modify_at, modify_id,
  modify_out, rounds, rounds-map, count_if, count_if-map, count_if-congr,
}
use tollgate_esp.Gate.State.{Gate, Session, Env, session_max_clients}
use tollgate_esp.Gate.Firewall.{fw_is_allowed, fw_is_allowed-occ}
use tollgate_esp.Gate.Session.{
  serves, closed, revoke, is_expired, metric_is_bytes, get_time_ms, check_slot, check_read,
  check_from, session_tick,
}
use tollgate_esp.Gate.Invariant.{holders, IsSound, IsPaidOnly}
use tollgate_esp.Gate.Slots.{
  revoke_cases, close_slot-ap_ip, revoke-platform, revoke_active, close_slot-sessions,
  revoke-IsSound, revoke-IsPaidOnly,
}
use tollgate_esp.Gate.Upkeep.{session_tick_keeps}

-- What a tick makes of a session.
abbrev pub settled : Env → Gate → Session → Session
settled e g s = if s.active && is_expired e g s then closed s else s

is_expired-frame :
    (e : Env) (g h : Gate) (s : Session)
    → h.platform_set ≡ g.platform_set
    → is_expired e h s ≡ is_expired e g s
unfolding is_expired metric_is_bytes get_time_ms
is_expired-frame e g h s p = rw p

settled-frame : (e : Env) (g h : Gate) → h.platform_set ≡ g.platform_set → settled e h ≡ settled e g
settled-frame e g h p = fun_ext λ s. rw (is_expired-frame e g h s p)

check_slot-platform :
    (e : Env) (i : ℕ) (g : Gate) → (check_slot e i g).platform_set ≡ g.platform_set
unfolding check_slot
check_slot-platform e i g = read (get_elem? g.sessions i)
  where
    read : (o : Option Session) → (check_read e i o g).platform_set ≡ g.platform_set
    read none = refl
    read (some s) = ground (arith, revoke-platform i g)

-- One round settles one slot.
check_slot-sessions :
    (e : Env) (i : ℕ) (g : Gate) → (check_slot e i g).sessions ≡ modify g.sessions i (settled e g)
unfolding check_slot
check_slot-sessions e i g = elim (Option-cases (get_elem? g.sessions i)) [
  | inl out ↦ rw (out, check_slot) (sym (modify_out (settled e g) g.sessions i out))
  | inr (s, at) ↦ elim (Bool-cases (s.active && is_expired e g s)) [
    | inl over ↦
        rw (at, check_slot)
          (rw (over, revoke_active i s g at (ground arith))
            (close_slot-sessions i s.client_ip g
              ∙ modify_at closed (settled e g) g.sessions i s at (rw over)))
    | inr kept ↦
        rw (at, check_slot)
          (rw kept (
            sym (modify_id g.sessions i)
            ∙ modify_at (λ a. a) (settled e g) g.sessions i s at (rw kept)))
  ]
]

check_from-sessions :
    (e : Env) (n i : ℕ) (g : Gate)
    → (check_from e n i g).sessions ≡ rounds (settled e g) n i g.sessions
unfolding check_from rounds
check_from-sessions e zero i g = refl
check_from-sessions e (suc n) i g =
    check_from-sessions e n (suc i) (check_slot e i g)
    ∙ ap₂ (λ f xs. rounds f n (suc i) xs)
        (settled-frame e g (check_slot e i g) (check_slot-platform e i g))
        (check_slot-sessions e i g)

-- A tick settles every slot.
session_tick-sessions :
    (e : Env) (g : Gate) → IsSound g → (session_tick e g).sessions ≡ map (settled e g) g.sessions
unfolding session_tick
session_tick-sessions e g v =
    check_from-sessions e session_max_clients 0 g
    ∙ subst (λ n. rounds (settled e g) n 0 g.sessions ≡ map (settled e g) g.sessions) v.slots
        (rounds-map (settled e g) g.sessions)

session_tick-platform : (e : Env) (g : Gate) → (session_tick e g).platform_set ≡ g.platform_set
session_tick-platform e g =
    session_tick_keeps (λ h. h.platform_set ≡ g.platform_set) (λ i h p. revoke-platform i h ∙ p) e g
      refl

-- An active session that has not run out.
abbrev pub current : Env → Gate → ℕ → Session → Bool
current e g ip s = serves ip s && not (is_expired e g s)

settled-current :
    (e : Env) (g : Gate) (ip : ℕ) (s : Session) → serves ip (settled e g s) ≡ current e g ip s
settled-current e g ip s = ground arith

holders-session_tick :
    (e : Env) (g : Gate) (ip : ℕ)
    → IsSound g
    → holders ip (session_tick e g) ≡ count_if (current e g ip) g.sessions
holders-session_tick e g ip v =
    ap (count_if (serves ip)) (session_tick-sessions e g v)
    ∙ count_if-map (serves ip) (settled e g) g.sessions
    ∙ count_if-congr (λ s. serves ip (settled e g s)) (current e g ip) g.sessions
        (settled-current e g ip)

pub session_tick-IsSound : (e : Env) (g : Gate) → IsSound g → IsSound (session_tick e g)
session_tick-IsSound = session_tick_keeps IsSound revoke-IsSound

pub session_tick-IsPaidOnly : (e : Env) (g : Gate) → IsPaidOnly g → IsPaidOnly (session_tick e g)
session_tick-IsPaidOnly = session_tick_keeps IsPaidOnly revoke-IsPaidOnly

-- Where the firewall serves the paid sessions only, the tick lets an address through afterwards
-- exactly when it had an active session that has not run out.
pub session_tick-allowed :
    (e : Env) (g : Gate) (ip : ℕ)
    → IsPaidOnly g
    → fw_is_allowed ip (session_tick e g) ≡ ltb 0 (count_if (current e g ip) g.sessions)
session_tick-allowed e g ip v = ground (
  arith,
  fw_is_allowed-occ ip (session_tick e g),
  IsPaidOnly.exact (session_tick-IsPaidOnly e g v) ip,
  holders-session_tick e g ip v.sound,
)

revoke-ap_ip : (i : ℕ) (g : Gate) → (revoke i g).ap_ip ≡ g.ap_ip
revoke-ap_ip i g =
    revoke_cases (λ h. h.ap_ip ≡ g.ap_ip) i g refl λ s at on. close_slot-ap_ip i s.client_ip g

pub session_tick-ap_ip : (e : Env) (g : Gate) → (session_tick e g).ap_ip ≡ g.ap_ip
session_tick-ap_ip e g =
    session_tick_keeps (λ h. h.ap_ip ≡ g.ap_ip) (λ i h p. revoke-ap_ip i h ∙ p) e g refl
