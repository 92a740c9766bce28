-- ===== src/Gate/Refusals.antt =====
-- tollgate_core_session_create and its variant by bytes: when they return NULL.
use tollgate_esp.Prelude.{
  ℕ, ◌+◌, ◌≤◌, ◌≡◌, refl, ◌∙◌, inl, inr, Bool, true, false, Option, none, some, List, arith, leb,
  Bool-cases, Option-cases, length, length-modify, get_elem?, count_if, count_if-not, count_if-zero,
  find_index, find_index_hit, find_index_miss,
}
use tollgate_esp.Gate.State.{Gate, Session, Env, session_max_clients}
use tollgate_esp.Gate.Session.{
  serves, closed, close_slot, revoke, revoke_found, is_expired, is_free, evictable, make_room,
  open_slot, open_found, create, create_found, find_by_ip, create_bytes, mark_bytes, active_count,
}
use tollgate_esp.Gate.Invariant.{holders, IsSound}
use tollgate_esp.Gate.Slots.{
  close_slot-sessions, revoke_active, is_active, active_count-close_slot, active_of_active,
}

-- No slot is free or holds a session that has run out.
abbrev pub AllInUse : Env → Gate → Type 0
AllInUse e g = count_if (evictable e g) g.sessions ≡ 0

in_use :
    (e : Env) (g : Gate)
    → AllInUse e g
    → (i : ℕ) (s : Session) → get_elem? g.sessions i ≡ some s
    → (s.active ≡ true) × (is_expired e g s ≡ false)
in_use e g busy i s at = read s (count_if-zero (evictable e g) g.sessions i s busy at)
  where
    read : (s : Session) → evictable e g s ≡ false → (s.active ≡ true) × (is_expired e g s ≡ false)
    read s out = ground arith

free-active : (g : Gate) → active_count g + count_if is_free g.sessions ≡ length g.sessions
unfolding active_count
free-active g = count_if-not is_active g.sessions

open_slot_refused :
    (e : Env) (ip ms : ℕ) (g : Gate)
    → (open_slot e ip ms g).1 ≡ none
    → ((open_slot e ip ms g).0 ≡ g) × (count_if is_free g.sessions ≡ 0)
unfolding open_slot
open_slot_refused e ip ms g = found (find_index is_free g.sessions) refl
  where
    found :
        (o : Option ℕ)
        → find_index is_free g.sessions ≡ o
        → (open_found e ip ms o g).1 ≡ none
        → ((open_found e ip ms o g).0 ≡ g) × (count_if is_free g.sessions ≡ 0)
    found none eq made = (refl, find_index_miss is_free g.sessions eq)
    found (some k) eq made = absurd (ground arith)

-- Closing an active slot leaves a free one.
evicted :
    (i : ℕ) (s : Session) (g : Gate)
    → IsSound g
    → get_elem? g.sessions i ≡ some s
    → is_free s ≡ false
    → 1 ≤ count_if is_free (revoke i g).sessions
evicted i s g v at on = rw (revoke_active i s g at (ground arith)) (
    ground (
      arith,
      free-active (close_slot i s.client_ip g),
      active_count-close_slot i s g at,
      active_of_active i s g at,
      free-active g,
      close_slot-sessions i s.client_ip g,
      length-modify g.sessions i closed,
    ))

-- Where no slot is free after room was made, none could be evicted, and nothing was done.
make_room_full :
    (e : Env) (g : Gate)
    → IsSound g
    → count_if is_free (make_room e g).sessions ≡ 0
    → (make_room e g ≡ g) × (count_if (evictable e g) g.sessions ≡ 0)
unfolding make_room
make_room_full e g v z = elim (Bool-cases (leb session_max_clients g.session_count)) [
  | inl full ↦ rw full (
      found (ground (arith, full, free-active g, v.counted, v.slots))
        (find_index (evictable e g) g.sessions) refl (rw full at z))
  | inr room ↦ absurd (ground (arith, room, rw room at z, free-active g, v.counted, v.slots))
]
  where
    found :
        count_if is_free g.sessions ≡ 0
        → (o : Option ℕ) → find_index (evictable e g) g.sessions ≡ o
        → count_if is_free (revoke_found o g).sessions ≡ 0
        → (revoke_found o g ≡ g) × (count_if (evictable e g) g.sessions ≡ 0)
    found busy none eq still = (refl, find_index_miss (evictable e g) g.sessions eq)
    found busy (some i) eq still =
        let (s, at, hit) = find_index_hit (evictable e g) g.sessions i eq in
        absurd
          (omega (arith, still, evicted i s g v at (count_if-zero is_free g.sessions i s busy at)))

-- In a sound state a session is refused only when no slot is free or has run out, and then nothing
-- changes.
pub create_refused :
    (e : Env) (ip ms : ℕ) (g : Gate)
    → IsSound g
    → (create e ip ms g).1 ≡ none
    → ((create e ip ms g).0 ≡ g) × AllInUse e g
unfolding create
create_refused e ip ms g v = found (find_by_ip ip g)
  where
    found :
        (o : Option ℕ)
        → (create_found e ip ms o g).1 ≡ none
        → ((create_found e ip ms o g).0 ≡ g) × AllInUse e g
    found none refused =
        let (same, no_free) = open_slot_refused e ip ms (make_room e g) refused in
        let (idle, none_out) = make_room_full e g v no_free in (same ∙ idle, none_out)
    found (some i) refused = absurd (ground arith)

find_index-none :
    {A : Type 0} (p : A → Bool) (xs : List A)
    → ((i : ℕ) (a : A) → get_elem? xs i ≡ some a → p a ≡ false)
    → find_index p xs ≡ none
find_index-none p xs h = elim (Option-cases (find_index p xs)) [
  | inl e ↦ e
  | inr (i, e) ↦ let (a, at, hit) = find_index_hit p xs i e in absurd (ground (arith, h i a at))
]

-- With every slot in use and no session of its own, an address gets none.
pub create_full :
    (e : Env) (ip ms : ℕ) (g : Gate)
    → AllInUse e g
    → holders ip g ≡ 0
    → create e ip ms g ≡ (g, none)
unfolding create find_by_ip open_slot make_room
create_full e ip ms g busy z =
    rw (none_of_its_own, create_found) (rw (room, open_slot, none_free, open_found) refl)
  where
    none_of_its_own : find_index (serves ip) g.sessions ≡ none
    none_of_its_own =
        find_index-none (serves ip) g.sessions
          λ i s at. count_if-zero (serves ip) g.sessions i s z at

    none_free : find_index is_free g.sessions ≡ none
    none_free = find_index-none is_free g.sessions λ i s at. ground (arith, in_use e g busy i s at)

    room : make_room e g ≡ g
    room =
        rw
          (find_index-none (evictable e g) g.sessions
            λ i s at. ground (arith, in_use e g busy i s at))
          (ground arith)

-- The same for sessions by bytes.
pub create_bytes_refused :
    (e : Env) (ip n : ℕ) (g : Gate)
    → IsSound g
    → (create_bytes e ip n g).1 ≡ none
    → ((create_bytes e ip n g).0 ≡ g) × AllInUse e g
unfolding create_bytes
create_bytes_refused e ip n g v =
    marked (create e ip 0 g).0 (create e ip 0 g).1 (create_refused e ip 0 g v)
  where
    marked :
        (k : Gate) (o : Option ℕ)
        → (o ≡ none → (k ≡ g) × AllInUse e g)
        → (mark_bytes n (k, o)).1 ≡ none
        → ((mark_bytes n (k, o)).0 ≡ g) × AllInUse e g
    marked k none h refused = h refl
    marked k (some j) h refused = absurd (ground arith)

-- The same for sessions by bytes.
pub create_bytes_full :
    (e : Env) (ip n : ℕ) (g : Gate)
    → AllInUse e g
    → holders ip g ≡ 0
    → create_bytes e ip n g ≡ (g, none)
unfolding create_bytes mark_bytes
create_bytes_full e ip n g busy z = rw (create_full e ip 0 g busy z)

-- A table in use has as many active sessions as slots.
pub all_active : (e : Env) (g : Gate) → AllInUse e g → active_count g ≡ length g.sessions
all_active e g busy = ground (
  arith,
  free-active g,
  find_index_miss is_free g.sessions
      (find_index-none is_free g.sessions λ i s at. ground (arith, in_use e g busy i s at)),
)
