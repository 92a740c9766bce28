-- ===== src/Relay/Storage/Effects.antt =====
-- components/wisp_relay/storage_engine.c: what a call changes in the answers of the later ones.
use tollgate_esp.Prelude.{
  ℕ, ◌+◌, ◌≤◌, ◌≡◌, refl, sym, ap, ◌∙◌, inl, inr, Bool, true, false, not, Option, none, some, List,
  [], ◌∷◌, ◌++◌, ltb, if◌then◌else◌, if_yes, if_no, get_elem?, take, modify, count_if, filter,
  filter_yes, filter_no, arith, Bool-cases, Text, text_eq, text_eq_refl, is_some, append_nil,
}
use tollgate_esp.Prelude.Int.{ℤ}
use tollgate_esp.Relay.Storage.State.{
  Engine, IndexEntry, Outside, Files, storage_ok, not_initialized, find_index_entry,
}
use tollgate_esp.Relay.Storage.Calls.{
  Query, hit, unlink_entry, is_wanted, flagged, delete_found, delete_event, event_exists,
  query_events_json, query_of, clamp_limit,
}
use tollgate_esp.Relay.Storage.Upkeep.{compact_ready, compact_index}
use tollgate_esp.Relay.Storage.Compaction.{
  Keeps, save_index-Keeps, compact_ready-Keeps, is_kept, is_gone, save_index-index,
  compact_ready-filter,
}
use tollgate_esp.Relay.Storage.Queries.{results, to_list, query_events_json-results}
use tollgate_esp.Relay.Storage.Sound.{
  find_index_entry-live, event_exists-live, live, live-flagged, live-filter,
}
use tollgate_esp.Relay.Storage.Reach.{IsReached, IsReached-sound}

module _ (now : ℕ) (q : Query) (fs : Files) where
  hit_deleted : (e : IndexEntry) → e.deleted ≡ true → hit now q fs e ≡ none
  unfolding hit is_wanted
  hit_deleted e h = ground (arith, h)

  results-kept :
      (b : Bool) (e : IndexEntry) (es : List IndexEntry)
      → e.deleted ≡ b
      → results now q fs (filter is_kept es) ≡ results now q fs es
      → results now q fs (filter is_kept (e ∷ es)) ≡ results now q fs (e ∷ es)
  unfolding results to_list is_kept
  results-kept true e es h rest =
      ap (results now q fs) (filter_no is_kept e es (ap not h))
      ∙ rest
      ∙ sym (
          ap (λ o. results now q fs es ++ to_list o) (hit_deleted e h)
          ∙ append_nil (results now q fs es))
  results-kept false e es h rest =
      ap (results now q fs) (filter_yes is_kept e es (ap not h))
      ∙ ap (λ bs. bs ++ to_list (hit now q fs e)) rest

  -- Deleted entries give no result.
  results-filter :
      (es : List IndexEntry) → results now q fs (filter is_kept es) ≡ results now q fs es
  unfolding filter
  results-filter [] = refl
  results-filter (e ∷ es) = results-kept e.deleted e es refl (results-filter es)

-- On an initialized engine the in-place loop of storage_compact_index leaves the entries without
-- deletion flag in their order, as a filter of the index does, and returns the number of the
-- others. No event that exists is lost and none comes back, and every later query, at whatever
-- time, answers as it would have before.
pub compact_index-filter :
    (out later : Outside) (engine : Engine) (id : List ℕ) (kind : ℤ) (author : Option Text)
    (limit : ℤ)
    → engine.initialized ≡ true
    → (((compact_index out engine).0).index ≡ filter is_kept engine.index)
      × ((compact_index out engine).1 ≡ count_if is_gone engine.index)
      × (event_exists id ((compact_index out engine).0) ≡ event_exists id engine)
      × (query_events_json later kind author limit ((compact_index out engine).0)
          ≡ query_events_json later kind author limit engine)
unfolding compact_index Keeps
compact_index-filter out later engine id kind author limit ready =
    let after : Engine = (compact_ready out engine).0 in
    let run : compact_index out engine ≡ compact_ready out engine =
      if_yes engine.initialized (compact_ready out engine) (engine, 0) ready in
    let (same, counted) = compact_ready-filter out engine in
    let (fits, files, init) = compact_ready-Keeps out engine in
    let q = query_of kind author in
    let answers : results later.now q after.files after.index
        ≡ results later.now q engine.files engine.index =
      ap (λ fs. results later.now q fs after.index) files
      ∙ ap (results later.now q engine.files) same
      ∙ results-filter later.now q engine.files engine.index in
    (
      ap (λ r. (r.0).index) run ∙ same,
      ap (λ r. r.1) run ∙ counted,
      ap (λ r. event_exists id (r.0)) run
          ∙ event_exists-live id after (init ∙ ready)
          ∙ ap (ltb 0) (ap (live id) same ∙ live-filter id engine.index)
          ∙ sym (event_exists-live id engine ready),
      ap (λ r. query_events_json later kind author limit (r.0)) run
          ∙ (query_events_json-results later kind author limit after (init ∙ ready)).0
          ∙ ap (λ rs. some (take (clamp_limit limit) rs)) answers
          ∙ sym ((query_events_json-results later kind author limit engine ready).0),
    )

pub delete_found-gone :
    (out : Outside) (id j : List ℕ) (engine : Engine) (found : Option ℕ)
    → find_index_entry id engine ≡ found
    → live id engine.index ≤ 1
    → is_some found ≡ true
    → ((delete_found out found engine).1 ≡ storage_ok)
      × (live id ((delete_found out found engine).0).index ≡ 0)
      × (live j ((delete_found out found engine).0).index + (if text_eq id j then 1 else 0)
          ≡ live j engine.index)
      × (((delete_found out found engine).0).initialized ≡ engine.initialized)
unfolding delete_found find_index_entry Keeps
delete_found-gone out id j engine none h once hit = absurd (ground arith)
delete_found-gone out id j engine (some i) h once hit =
    let shrunk = record engine {
      files = unlink_entry (get_elem? engine.index i) engine.files;
      index = modify engine.index i flagged;
    } in
    let same = save_index-index out shrunk in
    let gone = live-flagged id id engine.index i h in
    (
      refl,
      ap (live id) same ∙ ground (arith, gone, text_eq_refl id, once),
      ap (λ es. live j es + (if text_eq id j then 1 else 0)) same
          ∙ live-flagged id j engine.index i h,
      (save_index-Keeps out shrunk).2,
    )

pub exists_ready :
    (id : List ℕ) (engine : Engine) → event_exists id engine ≡ true → engine.initialized ≡ true
unfolding event_exists
exists_ready id engine there = elim (Bool-cases engine.initialized) [
  | inl h ↦ h
  | inr h ↦ absurd (ground (arith, sym there ∙ if_no engine.initialized _ false h))
]

-- Deleting an event that exists, on an engine that any calls have led to, succeeds; the event does
-- not exist afterwards, and every event with another id exists as before.
pub delete_event-gone :
    (out : Outside) (id j : List ℕ) (engine : Engine)
    → IsReached engine
    → event_exists id engine ≡ true
    → text_eq id j ≡ false
    → ((delete_event out id engine).1 ≡ storage_ok)
      × (event_exists id ((delete_event out id engine).0) ≡ false)
      × (event_exists j ((delete_event out id engine).0) ≡ event_exists j engine)
unfolding delete_event
delete_event-gone out id j engine r there other =
    let found = find_index_entry id engine in
    let ready = exists_ready id engine there in
    let seen = sym (event_exists-live id engine ready) ∙ there in
    let run : delete_event out id engine ≡ delete_found out found engine =
      if_yes engine.initialized (delete_found out found engine) (engine, not_initialized) ready in
    let once = (IsReached-sound engine id r).1 in
    let (ok, none_left, others, init) =
      delete_found-gone out id j engine found refl once (find_index_entry-live id engine ∙ seen) in
    let after : Engine = (delete_found out found engine).0 in
    let kept : live j after.index ≡ live j engine.index = ground (arith, others, other) in
    (
      ap (λ r. r.1) run ∙ ok,
      ap (λ r. event_exists id (r.0)) run
          ∙ event_exists-live id after (init ∙ ready)
          ∙ ap (ltb 0) none_left,
      ap (λ r. event_exists j (r.0)) run
          ∙ event_exists-live j after (init ∙ ready)
          ∙ ap (ltb 0) kept
          ∙ sym (event_exists-live j engine ready),
    )
