-- ===== src/Tests/Clients.antt =====
-- The theorems on the client of another gate at concrete inputs.
use tollgate_esp.Prelude.{ℕ, ◌≡◌, refl, true, false, none, some, [], ◌∷◌, codes, text_eq, arith}
use tollgate_esp.Prelude.Int.{pos, ◌-ℤ◌}
use tollgate_esp.Gate.State.{Session}
use tollgate_esp.Gate.State
use tollgate_esp.Client.Usage.{
  calc_usage, usage_of, at_least_zero, format_usage, parse_usage, parse_usage-format_usage,
}
use tollgate_esp.Client.Parse.{Json}
use tollgate_esp.Client.Machine.{Client, ClientConfig, ClientState, World, client_init}
use tollgate_esp.Client.Machine.Expired.{client_ticks, ended_nil, ended_cons, client_ticks-HasEnded}

abbrev a_minute : Session
a_minute = record {
  client_ip = 7;
  mac = [];
  allotment_ms = 60000;
  start_time_ms = pos 1000;
  allotment_bytes = 0;
  bytes_consumed = 0;
  payment_method = State.PaymentMethod.cashu;
  active = true;
}

half_used :
    calc_usage (some a_minute) (codes "milliseconds") (pos 31000) ≡ some (pos 30000, pos 60000)
unfolding calc_usage usage_of at_least_zero ◌-ℤ◌ text_eq
half_used = refl

parse_usage-format_usage_example :
    parse_usage (format_usage (some a_minute) (codes "milliseconds") (pos 31000))
    ≡ some (pos 30000, pos 60000)
parse_usage-format_usage_example =
    parse_usage-format_usage (some a_minute) (codes "milliseconds") (pos 31000) 30000 60000
      half_used (omega arith) (omega arith)

abbrev no_json : Json
no_json = record {
  Node = ℕ;
  parse = λ s. none;
  get_object_item = λ node name. none;
  is_array = λ node. false;
  array_size = λ node. 0;
  array_item = λ node i. none;
  number = λ node. none;
  string = λ node. none;
}

abbrev config : ClientConfig
config = record {
  client_enabled = true;
  client_steps_to_buy = pos 1;
  client_renewal_threshold_pct = pos 20;
  client_retry_interval_ms = pos 30000;
}

abbrev a_tick : World
a_tick = record {
  now_ms = pos 70000;
  paid_at_ms = pos 70000;
  balance = 1000;
  sends = true;
  discovery_reply = none;
  payment_reply = none;
  usage_reply = some (200, format_usage none [] (pos 70000));
}

abbrev paying_client : Client
paying_client = record client_init { state = ClientState.paid; gw_ip = codes "192.168.4.1" }

client_ticks-HasEnded_example :
    ((client_ticks no_json config (a_tick ∷ a_tick ∷ []) paying_client).client.state
      ≡ ClientState.paid)
    × ((client_ticks no_json config (a_tick ∷ a_tick ∷ []) paying_client).spent ≡ [])
client_ticks-HasEnded_example =
    client_ticks-HasEnded no_json config (a_tick ∷ a_tick ∷ []) paying_client
      (ended_cons a_tick (a_tick ∷ []) [] (pos 70000) refl
        (ended_cons a_tick [] [] (pos 70000) refl ended_nil))
      refl refl
