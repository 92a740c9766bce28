-- ===== src/Payment/Process.antt =====
-- tollgate_core_process_payment of tollgate_core.c.
use mathlib.Core.Option
use tollgate_esp.Prelude.{
  ℕ, ◌+◌, ◌-◌, ◌^◌, Bool, true, false, not, Option, none, some, List, ◌==◌, ◌>>=◌, ◌>>◌, require,
  if◌then◌else◌, is_some, find_index, Text, text_eq, is_empty, codes,
}
use tollgate_esp.Prelude.Int.{ℤ, pos, negsuc}
use tollgate_esp.Gate.State.{Gate, Env}
use tollgate_esp.Gate.Session.{create, create_bytes}
use tollgate_esp.Payment.Outside.{Cjson, Services}
use tollgate_esp.Payment.Token.{
  CashuToken, ProofState, decode_token, check_proof_states, calculate_allotment, is_mint_accepted,
}

-- (uint64_t)x of an int32_t.
abbrev pub to_uint64 : ℤ → ℕ
to_uint64 (pos n) = n
to_uint64 (negsuc n) = 2 ^ 64 - (n + 1)

or_default {ℓ} : {A : Type ℓ} → A → Option A → A
or_default d none = d
or_default d (some a) = a

-- The metric, the price and the step that the payment is counted by.
unfoldable pub metric_of : Env → Text
unfolding or_default
metric_of e = or_default (codes "milliseconds") e.platform.get_metric

unfoldable pub price_of : Env → ℕ
unfolding or_default
price_of e = or_default 21 e.platform.get_price_sats

unfoldable pub step_of : Env → ℕ
unfolding or_default metric_of
step_of e =
    if text_eq (metric_of e) (codes "bytes")
    then or_default 22020096 (Option.map to_uint64 e.platform.get_step_bytes)
    else or_default 60000 (Option.map to_uint64 e.platform.get_step_ms)

unfoldable pub any_spent : List ProofState → Bool
any_spent states = is_some (find_index (λ st. st.spent) states)

-- The outcome of a payment: the gate, ESP_OK or not, and whether spend_proofs was called and
-- took the token.
pub record Outcome : Type 0 where
  pub gate : Gate
  pub ok : Bool
  pub spent : Bool

abbrev pub refused : Gate → Outcome
refused g = record { gate = g; ok = false; spent = false }

-- The session is made by the metric; NULL is a failure.
unfoldable pub finish : Bool → Gate × Option ℕ → Outcome
finish spent (g, none) = record { gate = g; ok = false; spent = spent }
finish spent (g, some i) = record { gate = g; ok = true; spent = spent }

-- From the allotment on; `spent` says whether the platform has taken the token.
unfoldable pub settle : Env → ℕ → ℕ → Bool → Gate → Outcome
unfolding finish
settle e ip amount spent g =
    let allotment = calculate_allotment amount (price_of e) (step_of e) in
    if allotment == 0
    then record { gate = g; ok = false; spent = spent }
    else if text_eq (metric_of e) (codes "bytes")
    then finish spent (create_bytes e ip allotment g)
    else finish spent (create e ip allotment g)

unfoldable pub spend_with : Env → ℕ → Text → ℕ → Gate → Option (Text → Bool) → Outcome
spend_with e ip token_str amount g none = settle e ip amount false g
spend_with e ip token_str amount g (some call) =
    if call token_str then settle e ip amount true g else refused g

-- The call of spend_proofs, where the platform has one.
unfoldable pub spend : Env → ℕ → Text → ℕ → Gate → Outcome
unfolding spend_with
spend e ip token_str amount g = spend_with e ip token_str amount g e.platform.spend_proofs

unfoldable pub pay_vetted : Env → ℕ → Text → Gate → Option CashuToken → Outcome
pay_vetted e ip token_str g none = refused g
pay_vetted e ip token_str g (some t) = spend e ip token_str t.total_amount g

module _ (cj : Cjson) (sv : Services) where
  -- The tests before the token is spent: an address of a mint, a token that decodes, its mint, and
  -- that the mint knows none of its proofs as spent.
  unfoldable pub vetted : Env → Text → Gate → Option CashuToken
  unfolding any_spent
  vetted e token_str g = do
    require g.platform_set
    accepted ← e.platform.get_mint_url
    require (not (is_empty accepted))
    t ← decode_token cj sv token_str
    require (is_mint_accepted t.mint_url accepted)
    states ← check_proof_states cj sv t
    require (not (any_spent states))
    some t

  -- tollgate_core_process_payment, for a token string that is not NULL.
  unfoldable pub process_payment : Env → ℕ → Text → Gate → Outcome
  unfolding pay_vetted
  process_payment e ip token_str g = pay_vetted e ip token_str g (vetted e token_str g)
