-- ===== src/Tests/Payments.antt =====
-- The theorems on payments at concrete inputs.
use tollgate_esp.Prelude.{◌≡◌, refl, true, false, some, [], count_if, text_eq}
use tollgate_esp.Gate.Firewall.{fw_is_allowed, format_mac}
use tollgate_esp.Gate.Session.{create, is_expired}
use tollgate_esp.Gate.Invariant.{holders}
use tollgate_esp.Gate.Refusals.{AllInUse}
use tollgate_esp.Gate.Owner.{core_init}
use tollgate_esp.Payment.Token.{CashuToken, decode_token}
use tollgate_esp.Payment.Process.{process_payment, vetted}
use tollgate_esp.Payment.Laws.{process_payment-allowed, process_payment_refused}
use tollgate_esp.Payment.Accepted.{PaidBy, process_payment_paid, process_payment_burns}
use tollgate_esp.System.Calls.{run, paid_run, step}
use tollgate_esp.System.Histories.{paid_run-IsPaidOnly}
use tollgate_esp.Tests.World.{json, services, gate_ip, client_ip, env_at, token, started, busy}
use tollgate_esp.Payment.Process.{
  spend, spend_with, settle, price_of, step_of, metric_of, any_spent, finish, pay_vetted,
}
use tollgate_esp.Payment.Token.{
  parse_proofs_array, is_mint_accepted, check_proof_states, calculate_allotment, c_str,
}
use tollgate_esp.Gate.Session.{
  find_by_ip, create_found, open_slot, open_found, open_at, opened, make_room, metric_is_bytes,
  get_time_ms, counting_bytes, session_init, revoke, revoke_found, revoke_read, close_slot, extend,
  extended,
}
use tollgate_esp.Gate.Firewall.{
  fw_init, fw_grant, fw_revoke, find_client_by_ip, fw_get_mac_for_ip, new_client,
}
use tollgate_esp.Gate.Auth.{dns_set_authenticated, is_authenticated}
use tollgate_esp.System.Calls.{paid_step}
use tollgate_esp.Prelude.{find_index, find_first, hex_digit, to_hex, remove_key, move_last}
use tollgate_esp.Prelude.Int.{◌-ℤ◌}

paid_now : (process_payment json services (env_at 1000) client_ip token started).ok ≡ true
unfolding process_payment vetted decode_token parse_proofs_array is_mint_accepted check_proof_states
    spend spend_with settle calculate_allotment price_of step_of metric_of any_spent finish
    pay_vetted c_str json services create find_by_ip create_found open_slot open_found open_at
    opened make_room is_expired metric_is_bytes get_time_ms counting_bytes session_init revoke
    revoke_found revoke_read close_slot extend extended fw_init fw_grant fw_revoke find_client_by_ip
    format_mac fw_get_mac_for_ip new_client dns_set_authenticated is_authenticated find_index
    find_first text_eq hex_digit to_hex remove_key move_last count_if ◌-ℤ◌ core_init run paid_run
    step paid_step
paid_now = refl

process_payment-allowed_example :
    fw_is_allowed client_ip
      (process_payment json services (env_at 1000) client_ip token started).gate
    ≡ true
unfolding core_init paid_run
process_payment-allowed_example =
    process_payment-allowed json services (env_at 1000) client_ip token started
      (paid_run-IsPaidOnly json services gate_ip []) paid_now

no_prefix : (process_payment json services (env_at 1000) client_ip [] started).ok ≡ false
unfolding process_payment vetted decode_token parse_proofs_array is_mint_accepted check_proof_states
    spend spend_with settle calculate_allotment price_of step_of metric_of any_spent finish
    pay_vetted c_str json services create find_by_ip create_found open_slot open_found open_at
    opened make_room is_expired metric_is_bytes get_time_ms counting_bytes session_init revoke
    revoke_found revoke_read close_slot extend extended fw_init fw_grant fw_revoke find_client_by_ip
    format_mac fw_get_mac_for_ip new_client dns_set_authenticated is_authenticated find_index
    find_first text_eq hex_digit to_hex remove_key move_last count_if ◌-ℤ◌ core_init run paid_run
    step paid_step
no_prefix = refl

process_payment_refused_example :
    (process_payment json services (env_at 1000) client_ip [] started).gate ≡ started
unfolding core_init paid_run
process_payment_refused_example =
    process_payment_refused json services (env_at 1000) client_ip [] started
      (paid_run-IsPaidOnly json services gate_ip []) no_prefix

process_payment_paid_example : (t : CashuToken) × PaidBy json services (env_at 1000) token t
process_payment_paid_example =
    process_payment_paid json services (env_at 1000) client_ip token started paid_now

busy-AllInUse : AllInUse (env_at 1000) busy
unfolding count_if is_expired metric_is_bytes get_time_ms counting_bytes ◌-ℤ◌ text_eq
busy-AllInUse = refl

the_token : (t : CashuToken) × (vetted json services (env_at 1000) token busy ≡ some t)
unfolding process_payment vetted decode_token parse_proofs_array is_mint_accepted check_proof_states
    spend spend_with settle calculate_allotment price_of step_of metric_of any_spent finish
    pay_vetted c_str json services create find_by_ip create_found open_slot open_found open_at
    opened make_room is_expired metric_is_bytes get_time_ms counting_bytes session_init revoke
    revoke_found revoke_read close_slot extend extended fw_init fw_grant fw_revoke find_client_by_ip
    format_mac fw_get_mac_for_ip new_client dns_set_authenticated is_authenticated find_index
    find_first text_eq hex_digit to_hex remove_key move_last count_if ◌-ℤ◌ core_init run paid_run
    step paid_step
the_token = (_, refl)

nobody : holders client_ip busy ≡ 0
unfolding count_if
nobody = refl

process_payment_burns_example :
    process_payment json services (env_at 1000) client_ip token busy
    ≡ record { gate = busy; ok = false; spent = true }
process_payment_burns_example =
    process_payment_burns json services (env_at 1000) client_ip token busy the_token.0 (λ t. true)
      the_token.1 refl refl busy-AllInUse nobody
