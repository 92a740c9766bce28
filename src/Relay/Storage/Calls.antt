-- ===== src/Relay/Storage/Calls.antt =====
-- components/wisp_relay/storage_engine.c: saving, finding, querying and deleting events. The mutex
-- is left out, so a call is one step.
use tollgate_esp.Prelude.{
  ℕ, zero, suc, ◌+◌, ◌%◌, ◌^◌, Bool, true, false, not, ◌&&◌, ◌||◌, Option, none, some, List, [],
  ◌∷◌, ◌++◌, leb, ltb, ◌==◌, if◌then◌else◌, get_elem?, take, length, modify, is_some, Text, text_eq,
}
use tollgate_esp.Prelude.Int.{ℤ, pos, negsuc}
use tollgate_esp.Relay.Scan.{relay_hex_to_bytes}
use tollgate_esp.Relay.Storage.State.{
  Engine, IndexEntry, Meta, Files, Outside, StorageError, storage_ok, not_initialized, full,
  duplicate, not_found, io, max_event_size, event_path, write_file, unlink, find_index_entry,
  save_index, parse_event_meta, to_uint16,
}

-- The entry that storage_save_event_json fills.
unfoldable pub new_entry : Outside → Meta → Engine → IndexEntry
unfolding to_uint16
new_entry out meta engine = record {
  event_id = meta.meta_id;
  created_at = meta.meta_created_at % 2 ^ 32;
  expires_at = (out.now % 2 ^ 32 + engine.default_ttl_sec) % 2 ^ 32;
  file_index = engine.next_file_index;
  kind = to_uint16 meta.meta_kind;
  pubkey_prefix = take 4 meta.meta_pubkey;
  deleted = false;
}

-- `if (engine->index_count % 10 == 0) save_index_to_nvs(engine)`.
unfoldable pub save_tenth : Outside → Engine → Engine
save_tenth out engine = if length engine.index % 10 == 0 then save_index out engine else engine

-- The file and the entry; fwrite's result is not looked at.
unfoldable pub append_event : Outside → Meta → Text → Engine → Engine
unfolding new_entry write_file
append_event out meta json engine = record engine {
  files =
      write_file (event_path meta.meta_id engine.next_file_index) (take out.written json)
        engine.files;
  index = engine.index ++ new_entry out meta engine ∷ [];
  next_file_index = (engine.next_file_index + 1) % 2 ^ 32;
}

unfoldable pub save_event : Outside → Meta → Text → Engine → Engine × StorageError
unfolding append_event save_tenth find_index_entry
save_event out meta json engine =
    if is_some (find_index_entry meta.meta_id engine)
    then (engine, duplicate)
    else if leb engine.max_index_entries (length engine.index)
    then (engine, full)
    else if not (out.opens || out.opens_again)
    then (engine, io)
    else (save_tenth out (append_event out meta json engine), storage_ok)

-- storage_save_event_json.
unfoldable pub save_event_json : Outside → Text → Engine → Engine × StorageError
unfolding save_event
save_event_json out json engine =
    if engine.initialized
    then save_event out (parse_event_meta json) json engine
    else (engine, not_initialized)

-- storage_event_exists.
unfoldable pub event_exists : List ℕ → Engine → Bool
unfolding find_index_entry
event_exists id engine = if engine.initialized then is_some (find_index_entry id engine) else false

-- What storage_query_events_json looks for: the kind, and the four bytes of the author.
pub record Query : Type 0 where
  pub query_kind : ℤ
  pub author_prefix : Option (List ℕ)

unfoldable pub author_of : Option Text → Option (List ℕ)
author_of none = none
author_of (some hex) = if leb 8 (length hex) then some ((relay_hex_to_bytes hex 8 4).0) else none

unfoldable pub clamp_limit : ℤ → ℕ
clamp_limit (pos n) = if ltb 500 n then 500 else if n == 0 then 100 else n
clamp_limit (negsuc n) = 100

unfoldable pub kind_matches : ℤ → ℕ → Bool
kind_matches (pos n) kind = if n == 0 then true else kind == n
kind_matches (negsuc n) kind = true

unfoldable pub author_matches : Option (List ℕ) → List ℕ → Bool
author_matches none prefix = true
author_matches (some author) prefix = text_eq prefix author

-- `e->expires_at > 0 && e->expires_at < now`, with a uint32_t now.
unfoldable pub has_expired : ℕ → IndexEntry → Bool
has_expired now e = ltb 0 e.expires_at && ltb e.expires_at (now % 2 ^ 32)

-- The `continue`s before the file is opened.
unfoldable pub is_wanted : ℕ → Query → IndexEntry → Bool
unfolding has_expired kind_matches author_matches
is_wanted now q e =
    not e.deleted
    && not (has_expired now e)
    && kind_matches q.query_kind e.kind
    && author_matches q.author_prefix e.pubkey_prefix

unfoldable pub sized : Option Text → Option Text
sized none = none
sized (some body) = if length body == 0 || ltb max_event_size (length body) then none else some body

-- What one round of the loop puts into the result.
unfoldable pub hit : ℕ → Query → Files → IndexEntry → Option Text
unfolding is_wanted sized
hit now q fs e = if is_wanted now q e then sized (fs (event_path e.event_id e.file_index)) else none

unfoldable pub hit_at : ℕ → Query → Files → Option IndexEntry → Option Text
unfolding hit
hit_at now q fs none = none
hit_at now q fs (some e) = hit now q fs e

-- The loop from i - 1 down to 0, with room for so many more results.
unfoldable pub query_from : ℕ → Query → Files → List IndexEntry → ℕ → ℕ → List Text
query_from now q fs index zero room = []
query_from now q fs index (suc i) zero = []
query_from now q fs index (suc i) (suc room) = elim (hit_at now q fs (get_elem? index i)) [
  | none ↦ query_from now q fs index i (suc room)
  | some body ↦ body ∷ query_from now q fs index i room
]

unfoldable pub query_of : ℤ → Option Text → Query
unfolding author_of
query_of kind author_hex = record { query_kind = kind; author_prefix = author_of author_hex }

-- storage_query_events_json, `none` for STORAGE_ERR_NOT_INITIALIZED.
unfoldable pub query_events_json : Outside → ℤ → Option Text → ℤ → Engine → Option (List Text)
unfolding query_from query_of clamp_limit
query_events_json out kind author_hex limit engine =
    let q = query_of kind author_hex in
    if engine.initialized
    then some
        (query_from out.now q engine.files engine.index (length engine.index) (clamp_limit limit))
    else none

-- `e->flags |= STORAGE_FLAG_DELETED`.
unfoldable pub flagged : IndexEntry → IndexEntry
flagged e = record e { deleted = true }

unfoldable pub unlink_entry : Option IndexEntry → Files → Files
unfolding unlink
unlink_entry none fs = fs
unlink_entry (some e) fs = unlink (event_path e.event_id e.file_index) fs

unfoldable pub delete_found : Outside → Option ℕ → Engine → Engine × StorageError
unfolding unlink_entry flagged
delete_found out none engine = (engine, not_found)
delete_found out (some i) engine = (
  save_index out record engine {
    files = unlink_entry (get_elem? engine.index i) engine.files;
    index = modify engine.index i flagged;
  },
  storage_ok,
)

-- storage_delete_event.
unfoldable pub delete_event : Outside → List ℕ → Engine → Engine × StorageError
unfolding delete_found find_index_entry
delete_event out id engine =
    if engine.initialized
    then delete_found out (find_index_entry id engine) engine
    else (engine, not_initialized)
