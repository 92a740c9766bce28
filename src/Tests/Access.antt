-- ===== src/Tests/Access.antt =====
-- The gate's theorems at concrete inputs.
use tollgate_esp.Prelude.{
  ℕ, ◌≡◌, ◌≢◌, ◌⊎◌, ◌↔◌, ◌<◌, refl, true, false, none, List, [], ◌∷◌, ltb, count_if, arith, length,
  replicate, text_eq, occ,
}
use tollgate_esp.Gate.State.{Gate, Session, blank_session, boot}
use tollgate_esp.Gate.Firewall.{fw_is_allowed, format_mac}
use tollgate_esp.Gate.Session.{session_tick, create, is_expired}
use tollgate_esp.Gate.Invariant.{IsSound, IsPaidOnly, holders, grants}
use tollgate_esp.Gate.Tick.{current, session_tick-allowed}
use tollgate_esp.Gate.Filter.{
  Packet, canforward_filter, forward, FromStation, ForServices, ntohl, subnet, filter_passes,
}
use tollgate_esp.Gate.Refusals.{AllInUse, create_refused}
use tollgate_esp.Gate.Owner.{core_init, self_named}
use tollgate_esp.Payment.Token.{decode_token}
use tollgate_esp.Payment.Process.{process_payment, vetted}
use tollgate_esp.System.Calls.{run, paid_run, step, grant_access}
use tollgate_esp.System.Histories.{run-IsSound, paid_run-IsPaidOnly}
use tollgate_esp.System.Startup.{core_init-run}
use tollgate_esp.System.FreeRide.{ticks, grant_access_forever}
use tollgate_esp.Tests.World.{
  json, services, gate_ip, client_ip, env_at, started, one_paid, served, ten_sessions, crowded,
  ten_grants, granted, busy_session,
}
use tollgate_esp.Payment.Process.{
  spend, spend_with, settle, price_of, step_of, metric_of, any_spent, finish, pay_vetted,
}
use tollgate_esp.Payment.Token.{
  parse_proofs_array, is_mint_accepted, check_proof_states, calculate_allotment, c_str,
}
use tollgate_esp.Gate.Session.{
  find_by_ip, create_found, open_slot, open_found, open_at, opened, make_room, metric_is_bytes,
  get_time_ms, counting_bytes, session_init, revoke, revoke_found, revoke_read, close_slot, extend,
  extended,
}
use tollgate_esp.Gate.Firewall.{
  fw_init, fw_grant, fw_revoke, find_client_by_ip, fw_get_mac_for_ip, new_client,
}
use tollgate_esp.Gate.Auth.{dns_set_authenticated, is_authenticated}
use tollgate_esp.System.Calls.{paid_step}
use tollgate_esp.Prelude.{find_index, find_first, hex_digit, to_hex, remove_key, move_last}
use tollgate_esp.Prelude.Int.{◌-ℤ◌}

session_tick-allowed_example :
    fw_is_allowed client_ip (session_tick (env_at 62000) served)
    ≡ ltb 0 (count_if (current (env_at 62000) served client_ip) served.sessions)
session_tick-allowed_example =
    session_tick-allowed (env_at 62000) served client_ip
      (paid_run-IsPaidOnly json services gate_ip one_paid)

paid_run-IsPaidOnly_example : IsPaidOnly served
paid_run-IsPaidOnly_example = paid_run-IsPaidOnly json services gate_ip one_paid

run-IsSound_example : IsSound granted
run-IsSound_example = run-IsSound json services gate_ip boot ten_grants refl

core_init-run_example :
    (fw_is_allowed client_ip (core_init gate_ip (run json services ten_grants boot)) ≡ false)
    × (is_authenticated client_ip (core_init gate_ip (run json services ten_grants boot))
        ≡ fw_is_allowed client_ip (run json services ten_grants boot))
core_init-run_example = core_init-run json services gate_ip client_ip ten_grants

-- A packet of the client for 8.8.8.8.
abbrev outward : Packet
outward = record { len = 60; src = client_ip; dest = 134744072; proto = 6; tcp_dest = 443 }

outward-FromStation : FromStation outward served
unfolding ntohl subnet parse_proofs_array is_mint_accepted check_proof_states spend spend_with
    settle calculate_allotment price_of step_of metric_of any_spent finish pay_vetted c_str json
    services create find_by_ip create_found open_slot open_found open_at opened make_room is_expired
    metric_is_bytes get_time_ms counting_bytes session_init revoke revoke_found revoke_read
    close_slot extend extended fw_init fw_grant fw_revoke find_client_by_ip format_mac
    fw_get_mac_for_ip new_client dns_set_authenticated is_authenticated find_index find_first
    text_eq hex_digit to_hex remove_key move_last count_if ◌-ℤ◌ core_init run paid_run step
    paid_step process_payment vetted decode_token
outward-FromStation = record { whole = omega arith; local = refl }

filter_passes_example :
    (canforward_filter outward served ≡ forward)
    ↔ ((fw_is_allowed client_ip served ≡ true) ⊎ ForServices outward served)
filter_passes_example = filter_passes outward served outward-FromStation

away : ntohl 134744072 ≢ ntohl served.ap_ip
unfolding ntohl parse_proofs_array is_mint_accepted check_proof_states spend spend_with settle
    calculate_allotment price_of step_of metric_of any_spent finish pay_vetted c_str json services
    create find_by_ip create_found open_slot open_found open_at opened make_room is_expired
    metric_is_bytes get_time_ms counting_bytes session_init revoke revoke_found revoke_read
    close_slot extend extended fw_init fw_grant fw_revoke find_client_by_ip format_mac
    fw_get_mac_for_ip new_client dns_set_authenticated is_authenticated find_index find_first
    text_eq hex_digit to_hex remove_key move_last count_if ◌-ℤ◌ core_init run paid_run step
    paid_step process_payment vetted decode_token
away h = absurd (omega (arith, h))

crowded_out : (create (env_at 2000) client_ip 60000 crowded).1 ≡ none
unfolding parse_proofs_array is_mint_accepted check_proof_states spend spend_with settle
    calculate_allotment price_of step_of metric_of any_spent finish pay_vetted c_str json services
    create find_by_ip create_found open_slot open_found open_at opened make_room is_expired
    metric_is_bytes get_time_ms counting_bytes session_init revoke revoke_found revoke_read
    close_slot extend extended fw_init fw_grant fw_revoke find_client_by_ip format_mac
    fw_get_mac_for_ip new_client dns_set_authenticated is_authenticated find_index find_first
    text_eq hex_digit to_hex remove_key move_last count_if ◌-ℤ◌ core_init run paid_run step
    paid_step process_payment vetted decode_token
crowded_out = refl

create_refused_example :
    ((create (env_at 2000) client_ip 60000 crowded).0 ≡ crowded) × AllInUse (env_at 2000) crowded
create_refused_example =
    create_refused (env_at 2000) client_ip 60000 crowded
      (IsPaidOnly.sound (paid_run-IsPaidOnly json services gate_ip ten_sessions)) crowded_out

alone : holders client_ip started ≡ 0
unfolding parse_proofs_array is_mint_accepted check_proof_states spend spend_with settle
    calculate_allotment price_of step_of metric_of any_spent finish pay_vetted c_str json services
    create find_by_ip create_found open_slot open_found open_at opened make_room is_expired
    metric_is_bytes get_time_ms counting_bytes session_init revoke revoke_found revoke_read
    close_slot extend extended fw_init fw_grant fw_revoke find_client_by_ip format_mac
    fw_get_mac_for_ip new_client dns_set_authenticated is_authenticated find_index find_first
    text_eq hex_digit to_hex remove_key move_last count_if ◌-ℤ◌ core_init run paid_run step
    paid_step process_payment vetted decode_token
alone = refl

room_left : length started.clients < 10
unfolding parse_proofs_array is_mint_accepted check_proof_states spend spend_with settle
    calculate_allotment price_of step_of metric_of any_spent finish pay_vetted c_str json services
    create find_by_ip create_found open_slot open_found open_at opened make_room is_expired
    metric_is_bytes get_time_ms counting_bytes session_init revoke revoke_found revoke_read
    close_slot extend extended fw_init fw_grant fw_revoke find_client_by_ip format_mac
    fw_get_mac_for_ip new_client dns_set_authenticated is_authenticated find_index find_first
    text_eq hex_digit to_hex remove_key move_last count_if ◌-ℤ◌ core_init run paid_run step
    paid_step process_payment vetted decode_token
room_left = omega arith

grant_access_forever_example :
    fw_is_allowed client_ip (
      ticks
        (env_at 62000 ∷ env_at 122000 ∷ [])
        (step json services (env_at 1000) (grant_access client_ip) started))
    ≡ true
grant_access_forever_example =
    grant_access_forever json services (env_at 1000) client_ip started
      (env_at 62000 ∷ env_at 122000 ∷ []) alone room_left

granted-facts :
    (granted.session_count < 10) × (grants client_ip granted ≡ 0) × (length granted.clients ≡ 10)
unfolding occ parse_proofs_array is_mint_accepted check_proof_states spend spend_with settle
    calculate_allotment price_of step_of metric_of any_spent finish pay_vetted c_str json services
    create find_by_ip create_found open_slot open_found open_at opened make_room is_expired
    metric_is_bytes get_time_ms counting_bytes session_init revoke revoke_found revoke_read
    close_slot extend extended fw_init fw_grant fw_revoke find_client_by_ip format_mac
    fw_get_mac_for_ip new_client dns_set_authenticated is_authenticated find_index find_first
    text_eq hex_digit to_hex remove_key move_last count_if ◌-ℤ◌ core_init run paid_run step
    paid_step process_payment vetted decode_token
granted-facts = (omega arith, refl, refl)

abbrev owner_mac : List ℕ
owner_mac = 2 ∷ 0 ∷ 0 ∷ 0 ∷ 0 ∷ 7 ∷ []

abbrev owner_session : Session
owner_session = record busy_session { client_ip = client_ip; mac = format_mac owner_mac }

abbrev owned : Gate
owned = record started {
  sessions = owner_session ∷ replicate 9 blank_session;
  clients = record { ip = client_ip; mac = format_mac owner_mac } ∷ [];
  owner_connected = true;
  owner_ip = client_ip;
  owner_mac = owner_mac;
}

not_self_named : owner_mac ≢ self_named
not_self_named h = absurd (ground (arith, h))

other_named : text_eq owner_mac (2 ∷ 0 ∷ 0 ∷ 0 ∷ 0 ∷ 8 ∷ []) ≡ false
unfolding text_eq
other_named = refl
