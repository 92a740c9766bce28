-- ===== src/System/FreeRide.antt =====
-- grant_access_handler of main/captive_portal.c: grants without a session.
use tollgate_esp.Prelude.{
  ℕ, ◌≤◌, ◌<◌, ◌≡◌, refl, true, false, Option, none, some, List, [], ◌∷◌, arith, length, find_index,
  find_index_hit,
}
use tollgate_esp.Gate.State.{Gate, Env, max_clients, session_max_clients}
use tollgate_esp.Gate.Firewall.{fw_grant, fw_is_allowed, fw_is_allowed-occ}
use tollgate_esp.Gate.Session.{
  revoke, session_tick, create, create_found, open_slot, open_found, find_by_ip, make_room, is_free,
  extend,
}
use tollgate_esp.Gate.Invariant.{grants, holders, IsSound}
use tollgate_esp.Gate.Grants.{SameRest, fw_grant-SameRest, grants-fw_grant}
use tollgate_esp.Gate.Slots.{revoke_cases, holders-close_slot, grants-close_slot, holder_of_active}
use tollgate_esp.Gate.Opening.{grants-open_at}
use tollgate_esp.Gate.Upkeep.{session_tick_keeps}
use tollgate_esp.Gate.Refusals.{create_refused, all_active}
use tollgate_esp.Payment.Outside.{Cjson, Services}
use tollgate_esp.System.Calls.{step, grant_access}

-- An address that is let through without a session.
record RidesFree (ip : ℕ) (g : Gate) : Type 0 where
  no_session : holders ip g ≡ 0
  let_through : 1 ≤ grants ip g

revoke-RidesFree : (ip i : ℕ) (g : Gate) → RidesFree ip g → RidesFree ip (revoke i g)
revoke-RidesFree ip i g v = revoke_cases (RidesFree ip) i g v λ s at on. record {
  no_session = ground (arith, v.no_session, holders-close_slot i s g at ip on);
  let_through = ground (
    arith,
    v.no_session,
    v.let_through,
    holder_of_active i s g at on,
    grants-close_slot i s.client_ip ip g,
  );
}

pub ticks : List Env → Gate → Gate
ticks [] g = g
ticks (e ∷ es) g = ticks es (session_tick e g)

ticks-RidesFree : (ip : ℕ) (es : List Env) (g : Gate) → RidesFree ip g → RidesFree ip (ticks es g)
unfolding ticks
ticks-RidesFree ip [] g v = v
ticks-RidesFree ip (e ∷ es) g v =
    ticks-RidesFree ip es (session_tick e g)
      (session_tick_keeps (RidesFree ip) (revoke-RidesFree ip) e g v)

granted-RidesFree :
    (e : Env) (ip : ℕ) (g : Gate)
    → holders ip g ≡ 0
    → length g.clients < max_clients
    → RidesFree ip (fw_grant e ip g)
granted-RidesFree e ip g z room = record {
  no_session = rw (SameRest.sessions_same (fw_grant-SameRest e ip g)) z;
  let_through = ground (arith, z, room, grants-fw_grant e ip ip g);
}

-- An address without a session that asks for /grant_access while the client table has room is let
-- through, and no number of ticks takes that away.
pub grant_access_forever :
    (cj : Cjson) (sv : Services) (e : Env) (ip : ℕ) (g : Gate) (es : List Env)
    → holders ip g ≡ 0
    → length g.clients < max_clients
    → fw_is_allowed ip (ticks es (step cj sv e (grant_access ip) g)) ≡ true
unfolding step
grant_access_forever cj sv e ip g es z room =
    let v = ticks-RidesFree ip es (fw_grant e ip g) (granted-RidesFree e ip g z room) in
    ground (arith, v.let_through, fw_is_allowed-occ ip (ticks es (fw_grant e ip g)))

grants-open_slot :
    (e : Env) (ip ms : ℕ) (g : Gate)
    → grants ip g ≡ 0
    → length g.clients ≡ max_clients
    → grants ip (open_slot e ip ms g).0 ≡ 0
unfolding open_slot
grants-open_slot e ip ms g out full = found (find_index is_free g.sessions) refl
  where
    found :
        (o : Option ℕ)
        → find_index is_free g.sessions ≡ o
        → grants ip (open_found e ip ms o g).0 ≡ 0
    found none eq = out
    found (some k) eq =
        let (s, at, free) = find_index_hit is_free g.sessions k eq in
        ground (arith, out, full, grants-open_at e ip ms k s g at (ground arith) ip)

make_room_idle : (e : Env) (g : Gate) → g.session_count < session_max_clients → make_room e g ≡ g
unfolding make_room
make_room_idle e g room = ground arith

grants-create :
    (e : Env) (ip ms : ℕ) (g : Gate)
    → g.session_count < session_max_clients
    → grants ip g ≡ 0
    → length g.clients ≡ max_clients
    → grants ip (create e ip ms g).0 ≡ 0
unfolding create extend
grants-create e ip ms g room out full = found (find_by_ip ip g)
  where
    found : (o : Option ℕ) → grants ip (create_found e ip ms o g).0 ≡ 0
    found none = rw (make_room_idle e g room) (grants-open_slot e ip ms g out full)
    found (some k) = out

-- In a sound state with the client table full of grants to others and a free slot in the session
-- table, a session is made, and its address is not let through.
pub create_not_served :
    (e : Env) (ip ms : ℕ) (g : Gate)
    → IsSound g
    → g.session_count < session_max_clients
    → grants ip g ≡ 0
    → length g.clients ≡ max_clients
    → ((i : ℕ) × ((create e ip ms g).1 ≡ some i)) × (fw_is_allowed ip (create e ip ms g).0 ≡ false)
create_not_served e ip ms g v room out full = (
  created (create e ip ms g).1 refl,
  ground (arith, grants-create e ip ms g room out full, fw_is_allowed-occ ip (create e ip ms g).0),
)
  where
    created : (o : Option ℕ) → (create e ip ms g).1 ≡ o → (i : ℕ) × ((create e ip ms g).1 ≡ some i)
    created (some i) eq = (i, eq)
    created none eq =
        absurd (
          ground
            (arith, v.counted, v.slots, room, all_active e g (create_refused e ip ms g v eq).1))
