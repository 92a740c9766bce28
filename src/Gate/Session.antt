-- ===== src/Gate/Session.antt =====
-- tollgate_core_session.c: a table of ten slots. A `tg_session_t *` is the index of a slot.
use tollgate_esp.Prelude.{
  ℕ, zero, suc, ◌+◌, ◌-◌, ◌%◌, ◌^◌, Bool, true, false, not, ◌&&◌, ◌||◌, Option, none, some, [], leb,
  ◌==◌, if◌then◌else◌, get_elem?, modify, replicate, count_if, find_index, Text, text_eq, is_empty,
  codes,
}
use tollgate_esp.Prelude.Int.{ℤ, ◌-ℤ◌, leb_ℤ, to_int64}
use tollgate_esp.Gate.State.{Gate, Session, Env, PaymentMethod, session_max_clients, blank_session}
use tollgate_esp.Gate.Firewall.{fw_get_mac_for_ip, fw_grant, fw_revoke}

-- UINT64_MAX + 1, and INT64_MAX.
abbrev pub u64_mod : ℕ
u64_mod = 2 ^ 64

abbrev pub int64_max : ℕ
int64_max = 2 ^ 63 - 1

-- get_time_ms: the platform's clock, or the tick counter.
unfoldable pub get_time_ms : Env → Gate → ℤ
get_time_ms e g = elim e.platform.get_time_ms [
  | some t ↦ if g.platform_set then t else e.ticks_ms
  | none ↦ e.ticks_ms
]

-- tollgate_core_session_init.
unfoldable pub session_init : Gate → Gate
session_init g = record g {
  sessions = replicate session_max_clients blank_session;
  session_count = 0;
}

-- The test of tollgate_core_session_find_by_ip.
abbrev pub serves : ℕ → Session → Bool
serves ip s = s.active && s.client_ip == ip

-- tollgate_core_session_find_by_ip.
unfoldable pub find_by_ip : ℕ → Gate → Option ℕ
find_by_ip ip g = find_index (serves ip) g.sessions

-- tollgate_core_session_find_by_mac.
find_by_mac : Text → Gate → Option ℕ
find_by_mac m g = find_index (λ s. s.active && (not (is_empty s.mac) && text_eq s.mac m)) g.sessions

-- The middle of tollgate_core_session_is_expired: the platform sells bytes.
unfoldable pub metric_is_bytes : Env → Gate → Bool
metric_is_bytes e g = elim e.platform.get_metric [
  | none ↦ false
  | some m ↦ g.platform_set && text_eq m (codes "bytes")
]

abbrev pub pays_bytes : PaymentMethod → Bool
pays_bytes PaymentMethod.bytes = true
pays_bytes _ = false

-- tollgate_core_session_is_expired.
unfoldable pub is_expired : Env → Gate → Session → Bool
is_expired e g s =
    if not s.active
    then true
    else if pays_bytes s.payment_method || metric_is_bytes e g
    then leb s.allotment_bytes s.bytes_consumed
    else leb_ℤ (to_int64 s.allotment_ms) (get_time_ms e g -ℤ s.start_time_ms)

-- What tollgate_core_session_extend does to the session.
unfoldable pub extended : ℕ → Session → Session
extended ms s = if s.active then record s { allotment_ms = (s.allotment_ms + ms) % u64_mod } else s

-- tollgate_core_session_extend.
unfoldable pub extend : ℕ → ℕ → Gate → Gate
unfolding extended
extend i ms g = record g { sessions = modify g.sessions i (extended ms) }

abbrev pub closed : Session → Session
closed s = record s { active = false }

-- The active branch of tollgate_core_session_revoke. `s_session_count--` meets a count of at least
-- one there, since an active session is counted.
unfoldable pub close_slot : ℕ → ℕ → Gate → Gate
close_slot i ip g =
    let h = fw_revoke ip g in
    record h { sessions = modify h.sessions i closed; session_count = h.session_count - 1 }

unfoldable pub revoke_read : ℕ → Option Session → Gate → Gate
revoke_read i none g = g
revoke_read i (some s) g = if s.active then close_slot i s.client_ip g else g

-- tollgate_core_session_revoke.
unfoldable pub revoke : ℕ → Gate → Gate
unfolding revoke_read
revoke i g = revoke_read i (get_elem? g.sessions i) g

unfoldable pub revoke_found : Option ℕ → Gate → Gate
revoke_found none g = g
revoke_found (some i) g = revoke i g

-- A slot that the first loop of tollgate_core_session_create may take.
abbrev pub evictable : Env → Gate → Session → Bool
evictable e g s = not s.active || is_expired e g s

-- The first loop of tollgate_core_session_create, for a table that counts as full.
unfoldable pub make_room : Env → Gate → Gate
unfolding revoke_found
make_room e g =
    if leb session_max_clients g.session_count
    then revoke_found (find_index (evictable e g) g.sessions) g
    else g

-- The session that tollgate_core_session_create writes: the byte fields stay as they were.
unfoldable pub opened : Env → Gate → ℕ → ℕ → Session → Session
opened e g ip ms s = record s {
  client_ip = ip;
  allotment_ms = ms;
  start_time_ms = get_time_ms e g;
  active = true;
  payment_method = PaymentMethod.cashu;
  mac = elim (fw_get_mac_for_ip e ip) [ none ↦ [] | some m ↦ m ];
}

-- The body of its second loop at the free slot i.
unfoldable pub open_at : Env → ℕ → ℕ → ℕ → Gate → Gate
open_at e ip ms i g = fw_grant e ip (record g {
  sessions = modify g.sessions i (opened e g ip ms);
  session_count = g.session_count + 1;
})

unfoldable pub open_found : Env → ℕ → ℕ → Option ℕ → Gate → Gate × Option ℕ
open_found e ip ms none g = (g, none)
open_found e ip ms (some i) g = (open_at e ip ms i g, some i)

abbrev pub is_free : Session → Bool
is_free s = not s.active

-- Its second loop: the first free slot.
unfoldable pub open_slot : Env → ℕ → ℕ → Gate → Gate × Option ℕ
unfolding open_found
open_slot e ip ms g = open_found e ip ms (find_index is_free g.sessions) g

unfoldable pub create_found : Env → ℕ → ℕ → Option ℕ → Gate → Gate × Option ℕ
create_found e ip ms none g = open_slot e ip ms (make_room e g)
create_found e ip ms (some i) g = (extend i ms g, some i)

-- tollgate_core_session_create.
unfoldable pub create : Env → ℕ → ℕ → Gate → Gate × Option ℕ
unfolding create_found
create e ip ms g = create_found e ip ms (find_by_ip ip g) g

-- What tollgate_core_session_create_bytes adds.
unfoldable pub counting_bytes : ℕ → Session → Session
counting_bytes n s = record s {
  allotment_bytes = n;
  bytes_consumed = 0;
  allotment_ms = int64_max;
  payment_method = PaymentMethod.bytes;
}

unfoldable pub mark_bytes : ℕ → Gate × Option ℕ → Gate × Option ℕ
mark_bytes n (g, none) = (g, none)
mark_bytes n (g, some i) = (record g { sessions = modify g.sessions i (counting_bytes n) }, some i)

-- tollgate_core_session_create_bytes.
unfoldable pub create_bytes : Env → ℕ → ℕ → Gate → Gate × Option ℕ
unfolding mark_bytes
create_bytes e ip n g = mark_bytes n (create e ip 0 g)

-- s->bytes_consumed += bytes.
unfoldable pub consumed : ℕ → Session → Session
consumed n s = record s { bytes_consumed = (s.bytes_consumed + n) % u64_mod }

pub consume_found : ℕ → Option ℕ → Gate → Gate
consume_found n none g = g
consume_found n (some i) g = record g { sessions = modify g.sessions i (consumed n) }

-- tollgate_core_session_add_bytes.
unfoldable pub add_bytes : ℕ → ℕ → Gate → Gate
unfolding consume_found
add_bytes ip n g = consume_found n (find_by_ip ip g) g

pub check_read : Env → ℕ → Option Session → Gate → Gate
check_read e i none g = g
check_read e i (some s) g = if s.active && is_expired e g s then revoke i g else g

-- One round of check_expiry, at slot i.
unfoldable pub check_slot : Env → ℕ → Gate → Gate
unfolding check_read
check_slot e i g = check_read e i (get_elem? g.sessions i) g

-- The rounds from slot i on.
unfoldable pub check_from : Env → ℕ → ℕ → Gate → Gate
check_from e zero i g = g
check_from e (suc n) i g = check_from e n (suc i) (check_slot e i g)

-- check_expiry, which is tollgate_core_session_tick.
unfoldable pub session_tick : Env → Gate → Gate
unfolding check_from
session_tick e g = check_from e session_max_clients 0 g

unfoldable pub revoke_from : ℕ → ℕ → Gate → Gate
revoke_from zero i g = g
revoke_from (suc n) i g = revoke_from n (suc i) (revoke i g)

-- tollgate_core_session_revoke_all.
unfoldable pub session_revoke_all : Gate → Gate
unfolding revoke_from
session_revoke_all g = revoke_from session_max_clients 0 g

-- tollgate_core_session_active_count.
unfoldable pub active_count : Gate → ℕ
active_count g = count_if (λ s. s.active) g.sessions
