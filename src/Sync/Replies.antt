-- ===== src/Sync/Replies.antt =====
-- main/sync_manager.c: the stored ids, and the loop over what a relay answers.
use tollgate_esp.Prelude.{
  ℕ, ◌+◌, Bool, false, Option, none, some, List, [], ◌∷◌, ◌++◌, if◌then◌else◌, find_index, is_some,
  Text, codes, text_eq, ◌>>=◌,
}
use tollgate_esp.Prelude.Int.{pos, negsuc}
use tollgate_esp.Relay.Outside.{Json}
use tollgate_esp.Relay.Storage.State.{Engine, Outside}
use tollgate_esp.Relay.Storage.Calls.{query_events_json}
use tollgate_esp.Relay.Handlers.{RelayCtx, Sent}
use tollgate_esp.Relay.Local.{local_relay_publish}

module _ (J : Json) where
  -- The id of a stored event.
  unfoldable pub id_of : Text → Option Text
  id_of body = J.parse body >>= λ obj.
      J.get_object_item obj (codes "id") >>= λ id. if J.is_string id then J.valuestring id else none

  unfoldable pub ids_of : List Text → List Text
  unfolding id_of
  ids_of [] = []
  ids_of (body ∷ bodies) = elim (id_of body) [ none ↦ ids_of bodies | some id ↦ id ∷ ids_of bodies ]

  -- get_event_ids_from_storage, with a store.
  unfoldable pub event_ids : Outside → Engine → List Text
  unfolding ids_of
  event_ids out engine = elim (query_events_json out (negsuc 0) none (pos 5000) engine) [
    | none ↦ []
    | some results ↦ ids_of results
  ]

  -- What a text read from the relay is.
  pub data Reply : Type 0 where
    ignored : Reply
    with_event : Json.Node J → Reply
    end_of_stored : Reply

  unfoldable pub named : Json.Node J → Option Text → Reply
  named arr none = ignored
  named arr (some name) =
      if text_eq name (codes "EVENT")
      then elim (J.array_item arr 1) [ none ↦ ignored | some obj ↦ with_event obj ]
      else if text_eq name (codes "EOSE")
      then end_of_stored
      else ignored

  unfoldable pub reply_of : Text → Reply
  unfolding named
  reply_of resp = elim (J.parse resp) [
    | none ↦ ignored
    | some arr ↦ elim (J.array_item arr 0) [
      | none ↦ ignored
      | some cmd ↦ if J.is_string cmd then named arr (J.valuestring cmd) else ignored
    ]
  ]

  -- The loop over local_ids; strcmp with a NULL valuestring is `none`.
  unfoldable pub is_local : List Text → Option Text → Option Bool
  is_local [] id = some false
  is_local (x ∷ xs) none = none
  is_local (x ∷ xs) (some id) = some (is_some (find_index (λ y. text_eq y id) (x ∷ xs)))

  pub record Progress : Type 0 where
    pub relay : RelayCtx
    pub events_received : ℕ
    pub events_stored : ℕ
    pub sent : List Sent

  unfoldable pub publish_reply : Outside → Json.Node J → Progress → Option Progress
  publish_reply out obj p = local_relay_publish J (J.print obj) out p.relay >>= λ r. some record p {
    relay = r.0;
    events_received = p.events_received + 1;
    events_stored = p.events_stored + 1;
    sent = p.sent ++ r.1;
  }

  -- The branch for "EVENT".
  unfoldable pub take_event : List Text → Outside → Json.Node J → Progress → Option Progress
  unfolding is_local publish_reply
  take_event local_ids out obj p = elim (J.get_object_item obj (codes "id")) [
    | none ↦ publish_reply out obj p
    | some id ↦ is_local local_ids (J.valuestring id) >>= λ found.
        if found
        then some record p { events_received = p.events_received + 1 }
        else publish_reply out obj p
  ]

  -- The loop of sync_manager_do_reqdiff_sync, over the texts that ws_read_text gives, each with what
  -- the store meets then. After the last of them a read fails.
  unfoldable pub take_replies : List Text → List (Outside × Text) → Progress → Option Progress
  unfolding reply_of take_event
  take_replies local_ids [] p = some p
  take_replies local_ids (r ∷ rs) p = elim (reply_of (r.1)) [
    | ignored ↦ take_replies local_ids rs p
    | with_event obj ↦ take_event local_ids (r.0) obj p >>= λ q. take_replies local_ids rs q
    | end_of_stored ↦ some p
  ]
