-- ===== src/System/RevokeAll.antt =====
-- tollgate_core_session_revoke_all and tollgate_core_fw_revoke_all.
use tollgate_esp.Prelude.{
  ℕ, zero, suc, ◌-◌, ◌≡◌, refl, sym, ◌∙◌, false, none, some, List, [], ◌∷◌, arith, if◌then◌else◌,
  length, remove_key, occ, occ-remove_key, map, modify, modify_at, modify_id, modify_out, rounds,
  rounds-map, get_elem?, count_if, count_if-map, Option-cases, Bool-cases, inl, inr, ap, subst,
  count_if-none,
}
use tollgate_esp.Gate.State.{Gate, Session, FwClient, session_max_clients}
use tollgate_esp.Gate.Auth.{dns_set_authenticated}
use tollgate_esp.Gate.Firewall.{fw_revoke_all, revoke_each}
use tollgate_esp.Gate.Session.{
  serves, closed, revoke, revoke_from, session_revoke_all, active_count,
}
use tollgate_esp.Gate.Invariant.{holders, listed, InStep, IsSound, IsPaidOnly}
use tollgate_esp.Gate.Grants.{SameRest}
use tollgate_esp.Gate.Slots.{revoke_active, revoke-IsSound, is_active, close_slot-sessions}
use tollgate_esp.Gate.Upkeep.{session_revoke_all_keeps}

listed-revoke_each :
    (cs : List FwClient) (g : Gate) (ip : ℕ)
    → listed ip (revoke_each cs g) ≡ listed ip g - occ (λ c. c.ip) ip cs
unfolding revoke_each dns_set_authenticated occ
listed-revoke_each [] g ip = omega arith
listed-revoke_each (c ∷ cs) g ip = ground (
  arith,
  listed-revoke_each cs (record g { auth = remove_key (λ (a : ℕ). a) c.ip g.auth }) ip,
  occ-remove_key (λ (a : ℕ). a) c.ip ip g.auth,
)

revoke_each-SameRest : (cs : List FwClient) (g : Gate) → SameRest g (revoke_each cs g)
unfolding revoke_each dns_set_authenticated
revoke_each-SameRest [] g = ground arith
revoke_each-SameRest (c ∷ cs) g =
    ground
      (arith, revoke_each-SameRest cs (record g { auth = remove_key (λ (a : ℕ). a) c.ip g.auth }))

-- A list in which no key occurs is empty.
empty_of_occ : (xs : List ℕ) → ((k : ℕ) → occ (λ (a : ℕ). a) k xs ≡ 0) → length xs ≡ 0
unfolding occ
empty_of_occ [] h = refl
empty_of_occ (x ∷ xs) h = absurd (ground (arith, h x))

fw_revoke_all-SameRest : (g : Gate) → SameRest g (fw_revoke_all g)
unfolding fw_revoke_all
fw_revoke_all-SameRest g = ground (arith, revoke_each-SameRest g.clients g)

listed-fw_revoke_all : (g : Gate) (ip : ℕ) → InStep g → listed ip (fw_revoke_all g) ≡ 0
unfolding fw_revoke_all
listed-fw_revoke_all g ip v = ground (arith, listed-revoke_each g.clients g ip, v.agree ip)

fw_revoke_all-clients : (g : Gate) → (fw_revoke_all g).clients ≡ []
unfolding fw_revoke_all
fw_revoke_all-clients g = refl

fw_revoke_all-InStep : (g : Gate) → InStep g → InStep (fw_revoke_all g)
unfolding occ
fw_revoke_all-InStep g v = record {
  fits = rw (fw_revoke_all-clients g) (omega arith);
  lengths =
      rw (fw_revoke_all-clients g)
        (empty_of_occ (fw_revoke_all g).auth (λ k. listed-fw_revoke_all g k v));
  agree = λ ip. rw (fw_revoke_all-clients g) (listed-fw_revoke_all g ip v);
  once = λ ip. rw (fw_revoke_all-clients g) (omega arith);
}

-- What revoking makes of a session.
abbrev shut : Session → Session
shut s = if s.active then closed s else s

revoke_idle :
    (i : ℕ) (s : Session) (g : Gate)
    → get_elem? g.sessions i ≡ some s
    → s.active ≡ false
    → revoke i g ≡ g
unfolding revoke
revoke_idle i s g at off = rw (at, revoke) (rw off refl)

revoke_out : (i : ℕ) (g : Gate) → get_elem? g.sessions i ≡ none → revoke i g ≡ g
unfolding revoke
revoke_out i g out = rw (out, revoke) refl

revoke-sessions : (i : ℕ) (g : Gate) → (revoke i g).sessions ≡ modify g.sessions i shut
revoke-sessions i g = elim (Option-cases (get_elem? g.sessions i)) [
  | inl out ↦ rw (revoke_out i g out) (sym (modify_out shut g.sessions i out))
  | inr (s, at) ↦ elim (Bool-cases s.active) [
    | inl on ↦
        rw (revoke_active i s g at on)
          (close_slot-sessions i s.client_ip g ∙ modify_at closed shut g.sessions i s at (rw on))
    | inr off ↦ rw (revoke_idle i s g at off) (
        sym (modify_id g.sessions i)
        ∙ modify_at (λ (a : Session). a) shut g.sessions i s at (rw off))
  ]
]

revoke_from-sessions :
    (n i : ℕ) (g : Gate) → (revoke_from n i g).sessions ≡ rounds shut n i g.sessions
unfolding revoke_from rounds
revoke_from-sessions zero i g = refl
revoke_from-sessions (suc n) i g =
    revoke_from-sessions n (suc i) (revoke i g) ∙ ap (rounds shut n (suc i)) (revoke-sessions i g)

session_revoke_all-sessions :
    (g : Gate) → IsSound g → (session_revoke_all g).sessions ≡ map shut g.sessions
unfolding session_revoke_all
session_revoke_all-sessions g v =
    revoke_from-sessions session_max_clients 0 g
    ∙ subst (λ n. rounds shut n 0 g.sessions ≡ map shut g.sessions) v.slots
        (rounds-map shut g.sessions)

-- No session is active after tollgate_core_session_revoke_all.
holders-session_revoke_all : (g : Gate) (ip : ℕ) → IsSound g → holders ip (session_revoke_all g) ≡ 0
holders-session_revoke_all g ip v =
    ap (count_if (serves ip)) (session_revoke_all-sessions g v)
    ∙ count_if-map (serves ip) shut g.sessions
    ∙ count_if-none (λ s. serves ip (shut s)) g.sessions (λ s. ground arith)

active_count-session_revoke_all : (g : Gate) → IsSound g → active_count (session_revoke_all g) ≡ 0
unfolding active_count
active_count-session_revoke_all g v =
    ap (count_if is_active) (session_revoke_all-sessions g v)
    ∙ count_if-map is_active shut g.sessions
    ∙ count_if-none (λ s. is_active (shut s)) g.sessions (λ s. ground arith)

-- Emptying the firewall leaves sound tables sound.
pub fw_revoke_all-IsSound : (g : Gate) → IsSound g → IsSound (fw_revoke_all g)
unfolding active_count
fw_revoke_all-IsSound g v =
    let same = fw_revoke_all-SameRest g in
    record {
      slots = ap length same.sessions_same ∙ v.slots;
      counted = same.count_same ∙ v.counted ∙ sym (ap (count_if is_active) same.sessions_same);
      one_session = λ ip. rw same.sessions_same (v.one_session ip);
      in_step = fw_revoke_all-InStep g v.in_step;
    }

-- With no session left, an empty firewall serves the paid sessions only.
pub reset-IsPaidOnly : (g : Gate) → IsSound g → IsPaidOnly (fw_revoke_all (session_revoke_all g))
unfolding occ
reset-IsPaidOnly g v =
    let w = session_revoke_all_keeps IsSound revoke-IsSound g v in
    let h = session_revoke_all g in
    let same = fw_revoke_all-SameRest h in
    record {
      sound = fw_revoke_all-IsSound h w;
      exact = λ ip.
          rw (fw_revoke_all-clients h) (
            sym (ap (count_if (serves ip)) same.sessions_same ∙ holders-session_revoke_all g ip v));
      as_many =
          rw (fw_revoke_all-clients h)
            (sym (same.count_same ∙ w.counted ∙ active_count-session_revoke_all g v));
    }
