-- ===== src/Client/Machine.antt =====
-- main/tollgate_client.c: the state machine of the client of an upstream gate.
use tollgate_esp.Prelude.{
  ℕ, zero, suc, ◌+◌, ◌-◌, ◌*◌, ◌/◌, ◌%◌, ◌^◌, Bool, true, false, not, ◌&&◌, ◌||◌, Option, none,
  some, List, [], ◌∷◌, ◌++◌, ltb, leb, ◌==◌, if◌then◌else◌, take, Text, is_empty,
}
use tollgate_esp.Prelude.Int.{ℤ, pos, negsuc, ◌-ℤ◌, ◌*ℤ◌, ltb_ℤ, leb_ℤ}
use tollgate_esp.Client.Usage.{parse_usage}
use tollgate_esp.Client.Parse.{Json, Discovery, no_discovery, parse_discovery, parse_session}
pub mod Expired

-- tollgate_client_state_t.
pub data ClientState : Type 0 where
  idle detecting no_tollgate needs_pay paying paid renewing mining error : ClientState

-- The static variables of the file.
pub record Client : Type 0 where
  pub state : ClientState
  pub discovery : Discovery
  pub gw_ip : Text
  pub allotment_ms : ℤ
  pub remaining_ms : ℤ
  pub last_pay_time_ms : ℤ
  pub retry_count : ℕ

-- The fields of tollgate_config_t that the client reads.
pub record ClientConfig : Type 0 where
  pub client_enabled : Bool
  pub client_steps_to_buy : ℤ
  pub client_renewal_threshold_pct : ℤ
  pub client_retry_interval_ms : ℤ

-- A status and a body, `none` where the exchange fails.
abbrev pub HttpReply : Type 0
HttpReply = Option (ℕ × Text)

-- What one call meets: the clock when it starts and when a payment ends, the wallet's balance and
-- whether nucula_wallet_send makes a token, and the replies to the three requests.
pub record World : Type 0 where
  pub now_ms : ℤ
  pub paid_at_ms : ℤ
  pub balance : ℕ
  pub sends : Bool
  pub discovery_reply : HttpReply
  pub payment_reply : HttpReply
  pub usage_reply : HttpReply

-- The client, and the amounts of the tokens that left the wallet.
pub record Stepped : Type 0 where
  pub client : Client
  pub spent : List ℤ

-- tollgate_client_init; also what tollgate_client_on_sta_disconnected leaves.
unfoldable pub client_init : Client
client_init = record {
  state = idle;
  discovery = no_discovery;
  gw_ip = [];
  allotment_ms = pos 0;
  remaining_ms = negsuc 0;
  last_pay_time_ms = pos 0;
  retry_count = 0;
}

-- (uint64_t) of an int.
to_uint64_int : ℤ → ℕ
to_uint64_int (pos n) = n
to_uint64_int (negsuc n) = 2 ^ 64 - n - 1

-- `steps * price_per_step`, where the product fits an int.
unfoldable pub amount_sats : ClientConfig → Client → ℤ
amount_sats cfg c =
    let steps = cfg.client_steps_to_buy in
    (if leb_ℤ steps (pos 0) then pos 1 else steps) *ℤ c.discovery.price_per_step

-- remaining_ms * 100 / allotment_ms <= threshold_pct, where the product fits an int64_t and the
-- quotient an int.
pct_at_most : ℕ → ℕ → ℤ → Bool
pct_at_most remaining zero threshold = false
pct_at_most remaining (suc a) threshold = leb_ℤ (pos (remaining * 100 / suc a)) threshold

-- tollgate_core_client_should_renew.
unfoldable pub should_renew : ℤ → ℤ → ℤ → Bool
unfolding pct_at_most
should_renew (negsuc r) allotment_ms threshold_pct = false
should_renew (pos r) (negsuc a) threshold_pct = false
should_renew (pos r) (pos a) threshold_pct =
    pct_at_most r a (if leb_ℤ threshold_pct (pos 0) then pos 20 else threshold_pct)

-- A quotient of ints, cut towards zero, for a divisor that is positive.
quotient : ℤ → ℕ → ℤ
quotient (pos n) d = pos (n / d)
quotient (negsuc n) d = pos 0 -ℤ pos ((n + 1) / d)

divisor : ℤ → ℕ
divisor (pos zero) = 1
divisor (pos (suc n)) = suc n
divisor (negsuc n) = 1

-- tollgate_core_client_calc_price_per_min, where the product fits an int.
calc_price_per_min : ℤ → ℤ → ℤ
unfolding quotient divisor
calc_price_per_min price_per_step step_size_ms =
    quotient (price_per_step *ℤ pos 60000) (divisor step_size_ms)

-- tollgate_core_client_calc_steps.
calc_steps : ℤ → ℤ → ℤ
calc_steps steps_to_buy discovery_price =
    (if leb_ℤ steps_to_buy (pos 0) then pos 1 else steps_to_buy) *ℤ discovery_price

-- The body of a reply of status 200.
unfoldable pub ok_body : HttpReply → Option Text
ok_body none = none
ok_body (some (status, body)) = if status == 200 then some body else none

module _ (J : Json) where
  -- tollgate_client_detect.
  detect : World → Option Discovery
  unfolding ok_body
  detect w = elim (ok_body w.discovery_reply) [
    | none ↦ none
    | some body ↦ elim (parse_discovery J body) [
      | none ↦ none
      | some d ↦ if d.is_tollgate then some d else none
    ]
  ]

  accepted_allotment : World → Option ℤ
  unfolding ok_body
  accepted_allotment w = elim (ok_body w.payment_reply) [
    | none ↦ none
    | some body ↦ parse_session J body
  ]

  -- tollgate_client_pay: the allotment where it returns ESP_OK, and the tokens that were made.
  client_pay : World → ℤ → Option ℤ × List ℤ
  unfolding accepted_allotment to_uint64_int
  client_pay w amount =
      if ltb w.balance (to_uint64_int amount)
      then (none, [])
      else if not w.sends
      then (none, [])
      else (accepted_allotment w, amount ∷ [])

  -- The assignments after a payment that was accepted.
  after_payment : World → ℤ → Client → Client
  after_payment w allotment c = record c {
    allotment_ms = allotment;
    remaining_ms = allotment;
    last_pay_time_ms = w.paid_at_ms;
    state = paid;
  }

  first_paid : World → Client → Option ℤ × List ℤ → Stepped
  unfolding after_payment
  first_paid w c (none, tokens) = record { client = record c { state = error }; spent = tokens }
  first_paid w c (some allotment, tokens) = record {
    client = after_payment w allotment c;
    spent = tokens;
  }

  -- tollgate_client_on_sta_connected; what it logs of the market is left out.
  on_sta_connected : ClientConfig → World → Text → Client → Stepped
  unfolding first_paid detect client_pay
  on_sta_connected cfg w gw_ip c =
      if not cfg.client_enabled
      then record { client = c; spent = [] }
      else (let named = record c { gw_ip = take 15 gw_ip; state = detecting; retry_count = 0 } in
          elim (detect w) [
            | none ↦ record { client = record named { state = no_tollgate }; spent = [] }
            | some d ↦
                let found = record named { discovery = d; state = paying } in
                first_paid w found (client_pay w (amount_sats cfg found))
          ])

  -- tollgate_client_on_sta_disconnected.
  on_sta_disconnected : Client → Client
  on_sta_disconnected c = client_init

  retried : World → Client → Option ℤ × List ℤ → Stepped
  unfolding after_payment
  retried w c (none, tokens) = record {
    client = record c {
      last_pay_time_ms = w.paid_at_ms;
      retry_count = c.retry_count + 1;
      state = error;
    };
    spent = tokens;
  }
  retried w c (some allotment, tokens) = record {
    client = record (after_payment w allotment c) { retry_count = 0 };
    spent = tokens;
  }

  -- The branch of tollgate_client_tick in the state after an error.
  tick_error : ClientConfig → World → Client → Stepped
  unfolding retried client_pay
  tick_error cfg w c =
      if ltb_ℤ (w.now_ms -ℤ c.last_pay_time_ms) cfg.client_retry_interval_ms
      then record { client = c; spent = [] }
      else if is_empty c.gw_ip
      then record { client = c; spent = [] }
      else retried w c (client_pay w (amount_sats cfg c))

  renewal_done : World → Client → Option ℤ × List ℤ → Stepped
  unfolding after_payment
  renewal_done w c (none, tokens) = record {
    client = record c { state = error; last_pay_time_ms = w.paid_at_ms };
    spent = tokens;
  }
  renewal_done w c (some allotment, tokens) = record {
    client = after_payment w allotment c;
    spent = tokens;
  }

  -- tollgate_client_query_usage, and the two assignments after it.
  queried : World → Client → Client
  unfolding ok_body
  queried w c = elim (ok_body w.usage_reply) [
    | none ↦ c
    | some body ↦ elim (parse_usage body) [
      | none ↦ c
      | some (remaining, total) ↦ record c { remaining_ms = remaining; allotment_ms = total }
    ]
  ]

  -- The renewal, where it is due.
  renewed_if_due : ClientConfig → World → Client → Stepped
  unfolding renewal_done client_pay
  renewed_if_due cfg w c =
      if should_renew c.remaining_ms c.allotment_ms cfg.client_renewal_threshold_pct
      then renewal_done w (record c { state = renewing }) (client_pay w (amount_sats cfg c))
      else record { client = c; spent = [] }

  -- The rest of tollgate_client_tick.
  tick_paid : ClientConfig → World → Client → Stepped
  unfolding queried renewed_if_due
  tick_paid cfg w c =
      if is_empty c.gw_ip
      then record { client = c; spent = [] }
      else renewed_if_due cfg w (queried w c)

  tick_in : ClientState → ClientConfig → World → Client → Stepped
  unfolding tick_error tick_paid
  tick_in error cfg w c = tick_error cfg w c
  tick_in paid cfg w c = tick_paid cfg w c
  tick_in renewing cfg w c = tick_paid cfg w c
  tick_in s cfg w c = record { client = c; spent = [] }

  -- tollgate_client_tick.
  pub client_tick : ClientConfig → World → Client → Stepped
  unfolding tick_in
  client_tick cfg w c = tick_in c.state cfg w c
