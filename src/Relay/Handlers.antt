-- ===== src/Relay/Handlers.antt =====
-- components/wisp_relay/handlers.c and broadcaster.c: what the relay does with a message of a client.
-- The texts that the code reads after cJSON_Delete are taken to be unchanged.
use Prim.Native.String.{String}
use tollgate_esp.Prelude.{
  ℕ, zero, suc, ◌+◌, ◌%◌, Bool, true, false, not, ◌&&◌, Option, none, some, List, [], ◌∷◌, ◌++◌,
  map, ltb, leb, ◌==◌, if◌then◌else◌, length, take, Text, codes, ◌>>=◌,
}
use tollgate_esp.Prelude.Int.{ℤ, pos, negsuc, ◌+ℤ◌, ltb_ℤ, to_int64}
use tollgate_esp.Relay.Outside.{Json, Crypto}
use tollgate_esp.Relay.Scan.{relay_hex_to_bytes}
use tollgate_esp.Relay.Limiter
use tollgate_esp.Relay.Limiter.{RateLimiter, RateType}
use tollgate_esp.Relay.Subs
use tollgate_esp.Relay.Subs.{SubFilter, SubManager, match_json, max_filter_items}
use tollgate_esp.Relay.Storage.State.{Engine, Outside, StorageError, storage_ok, full, duplicate}
use tollgate_esp.Relay.Storage.Calls.{event_exists, save_event_json, query_events_json}
use tollgate_esp.Relay.Validator.{verify_event}
use tollgate_esp.Relay.Deletion.{deletion_process_json, is_deletion, or_nothing}
pub mod Verified
pub mod Future

-- relay_ctx_t, without the websocket server; rate_limiter is `none` for NULL.
pub record RelayCtx : Type 0 where
  pub sub_manager : SubManager
  pub storage : Engine
  pub rate_limiter : Option RateLimiter
  pub max_future_sec : ℤ

-- What router_send_ok, router_send_event, router_send_eose, router_send_closed and
-- router_send_notice put on a connection. An id that is NULL is left out of the message.
pub data Sent : Type 0 where
  sent_ok : ℕ → Option Text → Bool → Text → Sent
  sent_event : ℕ → Text → Text → Sent
  sent_eose : ℕ → Text → Sent
  sent_closed : ℕ → Text → Text → Sent
  sent_notice : ℕ → Text → Sent

-- The clocks of one call: the seconds of esp_timer_get_time, those of the FreeRTOS tick count, both
-- since the start of the chip, and what the storage meets.
pub record Moment : Type 0 where
  pub timer_seconds : ℕ
  pub tick_seconds : ℕ
  pub outside : Outside

-- The context, what was sent, and the result of a handler.
pub record Handled : Type 0 where
  pub ctx : RelayCtx
  pub sent : List Sent
  pub result : ℤ

-- rate_limiter_check, where there is a limiter.
unfoldable pub rate_check : ℕ → RateType → ℕ → RelayCtx → RelayCtx × Bool
rate_check fd type s ctx = elim ctx.rate_limiter [
  | none ↦ (ctx, true)
  | some rl ↦
      let (after, allowed) = Limiter.check fd type s rl in
      (record ctx { rate_limiter = some after }, allowed)
]

-- broadcaster_fanout_json.
unfoldable pub fanout : Text → ℤ → Text → ℕ → RelayCtx → List Sent
fanout json kind pubkey_hex created_at ctx =
    map (λ m. sent_event (m.0) (m.1) json) (match_json kind pubkey_hex created_at ctx.sub_manager)

unfoldable pub error_text : StorageError → Text
error_text full = codes "relay full"
error_text duplicate = codes "duplicate"
error_text e = codes "storage error"

unfoldable pub refusal : ℕ → Option Text → String → RelayCtx → Option Handled
refusal fd id message ctx =
    some record { ctx = ctx; sent = sent_ok fd id false (codes message) ∷ []; result = negsuc 0 }

-- `(int64_t)created_at > now + max_future_sec`, where a limit is set.
unfoldable pub too_far : ℕ → ℕ → RelayCtx → Bool
too_far tick created_at ctx =
    ltb_ℤ (pos 0) ctx.max_future_sec && ltb_ℤ (pos tick +ℤ ctx.max_future_sec) (to_int64 created_at)

module _ (J : Json) (C : Crypto) (m : Moment) (fd : ℕ) (json : Text) where
  -- What follows a save: the answer, the deletion and the broadcast.
  unfoldable pub publish :
      Text → Json.Node J → Json.Node J → Json.Node J → RelayCtx → Option Handled
  unfolding fanout
  publish id_hex pubkey_item kind_item created_item ctx =
      let kind = J.valueint kind_item in
      let created_at = J.to_uint64 (J.valuedouble created_item) in
      (if is_deletion kind
        then deletion_process_json J m.outside json ctx.storage
        else some (ctx.storage, 0))
      >>= λ deleted. J.valuestring pubkey_item >>= λ pubkey_hex.
          let after = record ctx { storage = deleted.0 } in
          some record {
            ctx = after;
            sent = sent_ok fd (some id_hex) true [] ∷ fanout json kind pubkey_hex created_at after;
            result = pos 0;
          }

  -- storage_save_event_json and its errors.
  unfoldable pub store : Text → Json.Node J → Json.Node J → Json.Node J → RelayCtx → Option Handled
  unfolding publish error_text
  store id_hex pubkey_item kind_item created_item ctx =
      let (storage, err) = save_event_json m.outside json ctx.storage in
      let after = record ctx { storage = storage } in
      elim err [
        | storage_ok ↦ publish id_hex pubkey_item kind_item created_item after
        | e ↦ some record {
          ctx = after;
          sent = sent_ok fd (some id_hex) false (error_text e) ∷ [];
          result = negsuc 0;
        }
      ]

  -- The checks of the id, of the storage and of the signature.
  unfoldable pub admit_event :
      Text → Json.Node J → Json.Node J → Json.Node J → RelayCtx → Option Handled
  unfolding store refusal
  admit_event id_hex pubkey_item kind_item created_item ctx =
      let (event_id, fine) = relay_hex_to_bytes id_hex 64 32 in
      if not fine
      then refusal fd (some []) "invalid event id" ctx
      else if event_exists event_id ctx.storage
      then some record {
        ctx = ctx;
        sent = sent_ok fd (some id_hex) true (codes "duplicate") ∷ [];
        result = pos 0;
      }
      else verify_event J C json >>= λ valid.
          if not valid
          then refusal fd (some id_hex) "invalid signature" ctx
          else store id_hex pubkey_item kind_item created_item ctx

  -- The future check, and the read of the id.
  unfoldable pub dated :
      Json.Node J → Json.Node J → Json.Node J → Json.Node J → RelayCtx → Option Handled
  unfolding admit_event too_far refusal
  dated id_item pubkey_item kind_item created_item ctx =
      if too_far m.tick_seconds (J.to_uint64 (J.valuedouble created_item)) ctx
      then refusal fd (J.valuestring id_item) "created_at too far in future" ctx
      else J.valuestring id_item >>= λ id_hex.
          admit_event id_hex pubkey_item kind_item created_item ctx

  required_field : Json.Node J → String → RelayCtx → (Json.Node J → Option Handled) → Option Handled
  unfolding refusal
  required_field obj name ctx continue = elim (J.get_object_item obj (codes name)) [
    | none ↦ refusal fd (some []) "missing required fields" ctx
    | some node ↦ continue node
  ]

  unfoldable pub parsed : RelayCtx → Option Handled
  unfolding required_field dated refusal
  parsed ctx = elim (J.parse json) [
    | none ↦ refusal fd (some []) "invalid JSON" ctx
    | some obj ↦ required_field obj "id" ctx λ id_item.
        required_field obj "pubkey" ctx λ pubkey_item. required_field obj "kind" ctx λ kind_item.
          required_field obj "created_at" ctx
            λ created_item. dated id_item pubkey_item kind_item created_item ctx
  ]

  -- handle_event, for a context that is not NULL; `none` is a read through a NULL pointer.
  unfoldable pub handle_event : RelayCtx → Option Handled
  unfolding rate_check parsed refusal
  handle_event ctx =
      let (checked, allowed) = rate_check fd RateType.event m.timer_seconds ctx in
      if allowed then parsed checked else refusal fd (some []) "rate limited" checked
