-- ===== src/Relay/Storage/Saving.antt =====
-- components/wisp_relay/storage_engine.c: an event that is saved is found.
use tollgate_esp.Prelude.{
  ℕ, zero, suc, ◌+◌, ◌-◌, ◌%◌, ◌^◌, ◌≤◌, ◌<◌, ◌≡◌, refl, sym, ap, ◌∙◌, Bool, true, false, not, ◌||◌,
  none, some, List, ◌∷◌, ◌++◌, ltb, leb, ◌==◌, if◌then◌else◌, if_yes, if_no, if-cases, take, length,
  arith, Text, text_eq, text_eq_refl, is_some, take_ge,
}
use tollgate_esp.Prelude.Int.{ℤ, pos}
use tollgate_esp.Relay.Storage.State.{
  Engine, Outside, Meta, storage_ok, not_initialized, event_path, write_file, find_index_entry,
  parse_event_meta,
}
use tollgate_esp.Relay.Storage.Calls.{
  hit, sized, author_of, has_expired, kind_matches, author_matches, is_wanted, new_entry,
  save_tenth, append_event, save_event, save_event_json, event_exists, query_events_json, query_of,
  clamp_limit,
}
use tollgate_esp.Relay.Storage.Compaction.{Keeps, save_index-Keeps, save_index-index}
use tollgate_esp.Relay.Storage.Queries.{results, results-snoc, to_list, query_events_json-results}
use tollgate_esp.Relay.Storage.Sound.{find_index_entry-live, event_exists-live, live}
use tollgate_esp.Relay.Storage.Reach.{append_event-live}

-- An entry whose time to live does not wrap is not expired when it is made.
new_entry-wanted :
    (out : Outside) (meta : Meta) (engine : Engine)
    → out.now % 2 ^ 32 + engine.default_ttl_sec < 2 ^ 32
    → is_wanted out.now (query_of (pos 0) none) (new_entry out meta engine) ≡ true
unfolding is_wanted new_entry query_of author_of has_expired kind_matches author_matches
new_entry-wanted out meta engine lasts = ground arith

sized_fits : (json : Text) → 1 ≤ length json → length json ≤ 8192 → sized (some json) ≡ some json
unfolding sized
sized_fits json nonempty small = ground arith

new_entry-hit :
    (out : Outside) (meta : Meta) (json : Text) (engine : Engine)
    → 1 ≤ length json
    → length json ≤ 8192
    → length json ≤ out.written
    → out.now % 2 ^ 32 + engine.default_ttl_sec < 2 ^ 32
    → hit out.now
        (query_of (pos 0) none)
        (append_event out meta json engine).files
        (new_entry out meta engine)
      ≡ some json
unfolding hit append_event write_file new_entry
new_entry-hit out meta json engine nonempty small whole lasts =
    if_yes (is_wanted out.now (query_of (pos 0) none) (new_entry out meta engine)) _ none
      (new_entry-wanted out meta engine lasts)
    ∙ ap sized (
        if_yes (text_eq (event_path meta.meta_id engine.next_file_index) _) _ _
          (text_eq_refl (event_path meta.meta_id engine.next_file_index))
        ∙ ap some (take_ge out.written json whole))
    ∙ sized_fits json nonempty small

save_tenth-Keeps : (out : Outside) (engine : Engine) → Keeps engine (save_tenth out engine)
unfolding save_tenth Keeps
save_tenth-Keeps out engine =
    if-cases (Keeps engine) (length engine.index % 10 == 0) _ _ (λ h. save_index-Keeps out engine)
      (λ h. (refl, refl, refl))

save_tenth-index : (out : Outside) (engine : Engine) → (save_tenth out engine).index ≡ engine.index
unfolding save_tenth
save_tenth-index out engine =
    if-cases (λ (d : Engine). d.index ≡ engine.index) (length engine.index % 10 == 0) _ _
      (λ h. save_index-index out engine) (λ h. refl)

save_event-stored :
    (out : Outside) (meta : Meta) (json : Text) (engine : Engine)
    → is_some (find_index_entry meta.meta_id engine) ≡ false
    → length engine.index < engine.max_index_entries
    → out.opens || out.opens_again ≡ true
    → save_event out meta json engine
      ≡ (save_tenth out (append_event out meta json engine), storage_ok)
unfolding save_event
save_event-stored out meta json engine new room opened =
    if_no (is_some (find_index_entry meta.meta_id engine)) _ _ new
    ∙ if_no (leb engine.max_index_entries (length engine.index)) _ _ (ground arith)
    ∙ if_no (not (out.opens || out.opens_again)) _ _ (ap not opened)

append_event-initialized :
    (out : Outside) (meta : Meta) (json : Text) (engine : Engine)
    → (append_event out meta json engine).initialized ≡ engine.initialized
unfolding append_event
append_event-initialized out meta json engine = refl

joined : (b : Bool) (n : ℕ) → ltb 0 (n + (if b then 1 else 0)) ≡ (b || ltb 0 n)
joined b n = ground arith

take_first :
    (n : ℕ) (json : Text) (rs : List Text) → 1 ≤ n → take n (json ∷ rs) ≡ json ∷ take (n - 1) rs
take_first zero json rs h = absurd (ground (arith, h))
take_first (suc n) json rs h = ground arith

-- The newest result after an event was appended.
append_event-first :
    (out : Outside) (meta : Meta) (json : Text) (engine : Engine) (room : ℕ)
    → 1 ≤ room
    → hit out.now
        (query_of (pos 0) none)
        (append_event out meta json engine).files
        (new_entry out meta engine)
      ≡ some json
    → (rest : List Text) × (take room (
          results out.now
            (query_of (pos 0) none)
            (append_event out meta json engine).files
            (append_event out meta json engine).index)
        ≡ json ∷ rest)
unfolding append_event to_list
append_event-first out meta json engine room some_room there =
    let q = query_of (pos 0) none in
    let fs = (append_event out meta json engine).files in
    let older = results out.now q fs engine.index in
    (
      take (room - 1) older,
      ap (take room) (
            results-snoc out.now q fs engine.index (new_entry out meta engine)
            ∙ ap (λ o. to_list o ++ older) there)
          ∙ take_first room json older some_room,
    )

append_event-answer :
    (out : Outside) (meta : Meta) (json : Text) (engine : Engine) (limit : ℤ)
    → engine.initialized ≡ true
    → hit out.now
        (query_of (pos 0) none)
        (append_event out meta json engine).files
        (new_entry out meta engine)
      ≡ some json
    → (rest : List Text) × (query_events_json out
          (pos 0)
          none
          limit
          (save_tenth out (append_event out meta json engine))
        ≡ some (json ∷ rest))
unfolding Keeps
append_event-answer out meta json engine limit ready there =
    let grown : Engine = append_event out meta json engine in
    let after : Engine = save_tenth out grown in
    let q = query_of (pos 0) none in
    let (max, files, init) = save_tenth-Keeps out grown in
    let (answer, least, most) =
      query_events_json-results out (pos 0) none limit after
        (init ∙ append_event-initialized out meta json engine ∙ ready) in
    let (rest, first) = append_event-first out meta json engine (clamp_limit limit) least there in
    (
      rest,
      answer
          ∙ ap (λ fs. some (take (clamp_limit limit) (results out.now q fs after.index))) files
          ∙ ap (λ es. some (take (clamp_limit limit) (results out.now q grown.files es)))
              (save_tenth-index out grown)
          ∙ ap some first,
    )

-- On an initialized engine with room in its index, where the file can be opened and fwrite writes
-- the whole text, of 1 to 8192 bytes, and where the time to live does not carry the uint32_t clock
-- past its range: saving an event whose id does not exist yet succeeds. Then exactly that id exists
-- besides those that did, and a query without kind and author, at that time and with any limit,
-- gives the saved text as its first result.
pub save_event_json-first :
    (out : Outside) (json : Text) (engine : Engine) (j : List ℕ) (limit : ℤ)
    → engine.initialized ≡ true
    → event_exists (parse_event_meta json).meta_id engine ≡ false
    → length engine.index < engine.max_index_entries
    → out.opens || out.opens_again ≡ true
    → 1 ≤ length json
    → length json ≤ 8192
    → length json ≤ out.written
    → out.now % 2 ^ 32 + engine.default_ttl_sec < 2 ^ 32
    → ((save_event_json out json engine).1 ≡ storage_ok)
      × (event_exists j ((save_event_json out json engine).0)
          ≡ (text_eq (parse_event_meta json).meta_id j || event_exists j engine))
      × ((rest : List Text) × (query_events_json out
              (pos 0)
              none
              limit
              ((save_event_json out json engine).0)
            ≡ some (json ∷ rest)))
unfolding save_event_json Keeps
save_event_json-first out json engine j limit ready new room opened nonempty small whole lasts =
    let meta = parse_event_meta json in
    let grown : Engine = append_event out meta json engine in
    let after : Engine = save_tenth out grown in
    let missing : is_some (find_index_entry meta.meta_id engine) ≡ false =
      find_index_entry-live meta.meta_id engine
      ∙ sym (event_exists-live meta.meta_id engine ready)
      ∙ new in
    let run : save_event_json out json engine ≡ (after, storage_ok) =
      if_yes engine.initialized (save_event out meta json engine) (engine, not_initialized) ready
      ∙ save_event-stored out meta json engine missing room opened in
    let (max, files, init) = save_tenth-Keeps out grown in
    let awake = init ∙ append_event-initialized out meta json engine ∙ ready in
    let (rest, answer) =
      append_event-answer out meta json engine limit ready
        (new_entry-hit out meta json engine nonempty small whole lasts) in
    let count : live j after.index
        ≡ live j engine.index + (if text_eq meta.meta_id j then 1 else 0) =
      ap (live j) (save_tenth-index out grown) ∙ append_event-live out meta json engine j in
    (
      ap (λ r. r.1) run,
      ap (λ r. event_exists j (r.0)) run
          ∙ event_exists-live j after awake
          ∙ ap (ltb 0) count
          ∙ joined (text_eq meta.meta_id j) (live j engine.index)
          ∙ ap (λ b. text_eq meta.meta_id j || b) (sym (event_exists-live j engine ready)),
      (rest, ap (λ r. query_events_json out (pos 0) none limit (r.0)) run ∙ answer),
    )
