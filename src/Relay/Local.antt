-- ===== src/Relay/Local.antt =====
-- main/local_relay.c: the relay that the firmware starts, and the events it publishes itself.
use tollgate_esp.Prelude.{◌*◌, Bool, true, false, Option, none, some, List, [], Text, codes, ◌>>=◌}
use tollgate_esp.Prelude.Int.{pos}
use tollgate_esp.Relay.Outside.{Json}
use tollgate_esp.Relay.Limiter
use tollgate_esp.Relay.Subs
use tollgate_esp.Relay.Storage.State.{Files, Outside, Saved, storage_ok, duplicate}
use tollgate_esp.Relay.Storage.Calls.{save_event_json}
use tollgate_esp.Relay.Storage.Upkeep.{NvsOpen, storage_init}
use tollgate_esp.Relay.Handlers.{RelayCtx, Sent, fanout}

-- local_relay_init, where every part is initialized.
unfoldable pub local_relay_init : NvsOpen → Bool → Files → Saved → RelayCtx
local_relay_init nvs psram files saved = record {
  sub_manager = Subs.init;
  storage = storage_init nvs psram (21 * 24 * 3600) files saved;
  rate_limiter = some (Limiter.init (some record { events_per_minute = 60; reqs_per_minute = 30 }));
  max_future_sec = pos 600;
}

module _ (J : Json) (json : Text) where
  published : Json.Node J → RelayCtx → Option (List Sent)
  published obj ctx = elim (J.get_object_item obj (codes "pubkey")) [
    | none ↦ some []
    | some pk ↦ elim (J.get_object_item obj (codes "kind")) [
      | none ↦ some []
      | some kind ↦ elim (J.get_object_item obj (codes "created_at")) [
        | none ↦ some []
        | some ca ↦ J.valuestring pk >>= λ pubkey.
            some (fanout json (J.valueint kind) pubkey (J.to_uint64 (J.valuedouble ca)) ctx)
      ]
    ]
  ]

  -- local_relay_publish, once the relay is initialized, with whether it returns ESP_OK.
  unfoldable pub local_relay_publish : Outside → RelayCtx → Option (RelayCtx × List Sent × Bool)
  unfolding published
  local_relay_publish out ctx =
      let (storage, err) = save_event_json out json ctx.storage in
      let after = record ctx { storage = storage } in
      elim err [
        | duplicate ↦ some (after, [], true)
        | storage_ok ↦ elim (J.parse json) [
          | none ↦ some (after, [], true)
          | some obj ↦ published obj after >>= λ sent. some (after, sent, true)
        ]
        | e ↦ some (after, [], false)
      ]
