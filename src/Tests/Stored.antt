-- ===== src/Tests/Stored.antt =====
-- The theorems on the relay's storage at concrete inputs.
use tollgate_esp.Prelude.{
  ℕ, ◌+◌, ◌%◌, ◌^◌, ◌≤◌, ◌<◌, ◌≡◌, refl, ap, ◌∙◌, true, false, ◌||◌, none, some, List, [], ◌∷◌,
  length, count_if, find_index, filter, take, codes, text_eq, text_eq_refl, arith, Text,
}
use tollgate_esp.Prelude.Int.{pos}
use tollgate_esp.Relay.Storage.State.{
  Engine, Outside, Saved, storage_ok, parse_event_meta, bytes_after, find_index_entry, save_index,
}
use tollgate_esp.Relay.Scan.{after_first, relay_hex_to_bytes}
use tollgate_esp.Relay.Storage.Calls.{
  save_event, append_event, save_tenth, save_event_json, delete_event, event_exists,
  query_events_json, query_of, clamp_limit,
}
use tollgate_esp.Relay.Storage.Upkeep.{storage_init, nvs_missing, compact_index}
use tollgate_esp.Relay.Storage.Compaction.{is_kept, is_gone}
use tollgate_esp.Relay.Storage.Queries.{results, query_events_json-results}
use tollgate_esp.Relay.Storage.Sound.{live}
use tollgate_esp.Relay.Storage.Reach.{IsReached, IsReached-sound, started, saving, deleting}
use tollgate_esp.Relay.Storage.Effects.{compact_index-filter, exists_ready, delete_event-gone}
use tollgate_esp.Relay.Storage.Saving.{save_event_json-first}
use tollgate_esp.Relay.Storage.Restart.{restarted, storage_init-storage_destroy}

abbrev pub outside : Outside
outside = record {
  now = 1000;
  nvs_opens = true;
  nvs_stores = λ key. true;
  opens = true;
  opens_again = true;
  written = 8192;
}

abbrev pub json : Text
json = codes "{\"id\":\"0a0b\",\"kind\":1,\"created_at\":900}"

abbrev pub nothing_saved : Saved
nothing_saved = record { saved_count = none; saved_next = none; blobs = λ k. none }

abbrev pub empty_engine : Engine
empty_engine = storage_init nvs_missing false 3600 (λ p. none) nothing_saved

abbrev pub one_event : Engine
one_event = (save_event_json outside json empty_engine).0

abbrev the_id : List ℕ
the_id = (parse_event_meta json).meta_id

awake : empty_engine.initialized ≡ true
unfolding storage_init
awake = refl

new : event_exists the_id empty_engine ≡ false
unfolding event_exists find_index_entry find_index storage_init
new = refl

has_room : length empty_engine.index < empty_engine.max_index_entries
unfolding storage_init
has_room = omega arith

lasts : outside.now % 2 ^ 32 + empty_engine.default_ttl_sec < 2 ^ 32
unfolding storage_init
lasts = omega arith

save_event_json-first_example :
    ((save_event_json outside json empty_engine).1 ≡ storage_ok)
    × (event_exists the_id one_event ≡ (text_eq the_id the_id || event_exists the_id empty_engine))
    × ((rest : List Text) × (query_events_json outside (pos 0) none (pos 20) one_event
          ≡ some (json ∷ rest)))
save_event_json-first_example =
    save_event_json-first outside json empty_engine the_id (pos 20) awake new has_room refl
      (omega arith) (omega arith) (omega arith) lasts

pub one_event-reached : IsReached one_event
one_event-reached = saving outside json empty_engine (started false 3600 (λ p. none) nothing_saved)

exists_now : event_exists the_id one_event ≡ true
exists_now =
    save_event_json-first_example.1
    ∙ ap (λ b. b || event_exists the_id empty_engine) (text_eq_refl the_id)

other_id : text_eq the_id [] ≡ false
unfolding parse_event_meta bytes_after after_first relay_hex_to_bytes text_eq
other_id = refl

delete_event-gone_example :
    ((delete_event outside the_id one_event).1 ≡ storage_ok)
    × (event_exists the_id ((delete_event outside the_id one_event).0) ≡ false)
    × (event_exists [] ((delete_event outside the_id one_event).0) ≡ event_exists [] one_event)
delete_event-gone_example =
    delete_event-gone outside the_id [] one_event one_event-reached exists_now other_id

abbrev deleted_event : Engine
deleted_event = (delete_event outside the_id one_event).0

IsReached-sound_example :
    (length deleted_event.index ≤ deleted_event.max_index_entries)
    × (live the_id deleted_event.index ≤ 1)
IsReached-sound_example =
    IsReached-sound deleted_event the_id (deleting outside the_id one_event one_event-reached)

awake_event : one_event.initialized ≡ true
awake_event = exists_ready the_id one_event exists_now

query_events_json-results_example :
    (query_events_json outside (pos 1) none (pos 900) one_event
      ≡ some (
          take
            (clamp_limit (pos 900))
            (results 1000 (query_of (pos 1) none) one_event.files one_event.index)))
    × (1 ≤ clamp_limit (pos 900))
    × (clamp_limit (pos 900) ≤ 500)
query_events_json-results_example =
    query_events_json-results outside (pos 1) none (pos 900) one_event awake_event

compact_index-filter_example :
    (((compact_index outside one_event).0).index ≡ filter is_kept one_event.index)
    × ((compact_index outside one_event).1 ≡ count_if is_gone one_event.index)
    × (event_exists the_id ((compact_index outside one_event).0) ≡ event_exists the_id one_event)
    × (query_events_json outside (pos 1) none (pos 5) ((compact_index outside one_event).0)
        ≡ query_events_json outside (pos 1) none (pos 5) one_event)
compact_index-filter_example =
    compact_index-filter outside outside one_event the_id (pos 1) none (pos 5) awake_event

event_fits : length one_event.index ≤ 1000
unfolding save_event_json save_event append_event save_tenth save_index find_index_entry find_index
    storage_init
event_fits = omega arith

storage_init-storage_destroy_example :
    ((restarted outside false 60 one_event).index ≡ one_event.index)
    × ((restarted outside false 60 one_event).next_file_index ≡ one_event.next_file_index)
    × ((restarted outside false 60 one_event).files ≡ one_event.files)
storage_init-storage_destroy_example =
    storage_init-storage_destroy outside one_event false 60 awake_event refl (λ key. refl)
      event_fits
