-- ===== src/Relay/Storage/Reach.antt =====
-- components/wisp_relay/storage_engine.c: the engines that a sequence of calls leads to.
use tollgate_esp.Prelude.{
  ℕ, ◌+◌, ◌%◌, ◌≤◌, ◌≡◌, refl, sym, ap, subst, ◌∙◌, inl, inr, Bool, false, not, ◌||◌, Option, none,
  some, List, [], ◌∷◌, ltb, leb, ◌==◌, if◌then◌else◌, if-cases, length, count_if, arith, Bool-cases,
  Text, text_eq, text_eq→eq, is_some, length-append, length-modify, length-filter, count_if-le,
}
use tollgate_esp.Relay.Storage.State.{
  Engine, IndexEntry, Outside, Files, Saved, Meta, StorageError, find_index_entry, save_index,
  parse_event_meta,
}
use tollgate_esp.Relay.Storage.Calls.{
  flagged, new_entry, save_tenth, append_event, delete_found, save_event, save_event_json,
  delete_event,
}
use tollgate_esp.Relay.Storage.Upkeep.{
  nvs_missing, storage_init, purge_from, purge_ready, purge_expired, compact_ready, compact_index,
}
use tollgate_esp.Relay.Storage.Compaction.{
  is_kept, Keeps, compact_ready-Keeps, compact_ready-filter,
}
use tollgate_esp.Relay.Storage.Sound.{
  find_index_entry-live, live, live-append, live-flagged, live-filter, purge_from-live,
}

-- The engine started with no index in NVS, and then any calls.
pub data IsReached : Engine → Type 0 where
  started :
      (psram : Bool) (ttl : ℕ) (files : Files) (saved : Saved)
      → IsReached (storage_init nvs_missing psram ttl files saved)
  saving :
      (out : Outside) (json : Text) (engine : Engine)
      → IsReached engine
      → IsReached ((save_event_json out json engine).0)
  deleting :
      (out : Outside) (id : List ℕ) (engine : Engine)
      → IsReached engine
      → IsReached ((delete_event out id engine).0)
  purging :
      (out : Outside) (engine : Engine)
      → IsReached engine
      → IsReached ((purge_expired out engine).0)
  compacting :
      (out : Outside) (engine : Engine)
      → IsReached engine
      → IsReached ((compact_index out engine).0)

-- The index fits its array, and no id stands in it twice.
pub record IsSound (max : ℕ) (index : List IndexEntry) : Type 0 where
  pub bounded : length index ≤ max
  pub unique : (id : List ℕ) → live id index ≤ 1

unfoldable pub HasSound : Engine → Type 0
HasSound engine = IsSound engine.max_index_entries engine.index

-- A call that only writes the index to NVS changes neither.
save_index-HasSound :
    (out : Outside) (engine : Engine) → HasSound engine → HasSound (save_index out engine)
unfolding save_index HasSound
save_index-HasSound out engine s = elim (Bool-cases out.nvs_opens) [
  | inl h ↦ rw h s
  | inr h ↦ rw h s
]

save_tenth-HasSound :
    (out : Outside) (engine : Engine) → HasSound engine → HasSound (save_tenth out engine)
unfolding save_tenth
save_tenth-HasSound out engine s =
    if-cases HasSound (length engine.index % 10 == 0) (save_index out engine) engine
      (λ h. save_index-HasSound out engine s) (λ h. s)

pub append_event-live :
    (out : Outside) (meta : Meta) (json : Text) (engine : Engine) (id : List ℕ)
    → live id (append_event out meta json engine).index
      ≡ live id engine.index + (if text_eq meta.meta_id id then 1 else 0)
unfolding append_event
append_event-live out meta json engine id = live-append id engine.index out meta engine

-- An id that was not found stands in the index once after it is appended.
append_event_unique :
    (out : Outside) (meta : Meta) (json : Text) (engine : Engine) (id : List ℕ)
    → is_some (find_index_entry meta.meta_id engine) ≡ false
    → live id engine.index ≤ 1
    → live id (append_event out meta json engine).index ≤ 1
append_event_unique out meta json engine id new once =
    let none_there = sym (find_index_entry-live meta.meta_id engine) ∙ new in
    let more = append_event-live out meta json engine id in
    elim (Bool-cases (text_eq meta.meta_id id)) [
      | inl same ↦
          let alike = ap (λ k. live k engine.index) (text_eq→eq meta.meta_id id same) in
          ground (arith, none_there, more, same, alike)
      | inr other ↦ ground (arith, more, other, once)
    ]

append_event-HasSound :
    (out : Outside) (meta : Meta) (json : Text) (engine : Engine)
    → is_some (find_index_entry meta.meta_id engine) ≡ false
    → leb engine.max_index_entries (length engine.index) ≡ false
    → HasSound engine
    → HasSound (append_event out meta json engine)
unfolding append_event HasSound
append_event-HasSound out meta json engine new room s = record {
  bounded = ground (arith, length-append engine.index (new_entry out meta engine ∷ []), room);
  unique = λ id. append_event_unique out meta json engine id new (s.unique id);
}

After : Engine × StorageError → Type 0
unfolding HasSound
After r = HasSound (r.0)

pub save_event_json-HasSound :
    (out : Outside) (json : Text) (engine : Engine)
    → HasSound engine
    → HasSound ((save_event_json out json engine).0)
unfolding save_event_json save_event After
save_event_json-HasSound out json engine s =
    let meta = parse_event_meta json in
    if-cases After engine.initialized _ _
      (λ ready.
        if-cases After (is_some (find_index_entry meta.meta_id engine)) _ _ (λ h. s)
          (λ new.
            if-cases After (leb engine.max_index_entries (length engine.index)) _ _ (λ h. s)
              (λ room.
                if-cases After (not (out.opens || out.opens_again)) _ _ (λ h. s)
                  (λ opened.
                    save_tenth-HasSound out (append_event out meta json engine)
                      (append_event-HasSound out meta json engine new room s)))))
      (λ h. s)

delete_found-HasSound :
    (out : Outside) (id : List ℕ) (engine : Engine) (found : Option ℕ)
    → find_index_entry id engine ≡ found
    → HasSound engine
    → After (delete_found out found engine)
unfolding delete_found After find_index_entry
delete_found-HasSound out id engine none h s = s
delete_found-HasSound out id engine (some i) h s = save_index-HasSound out _ record {
  bounded = omega (arith, length-modify engine.index i flagged, s.bounded);
  unique = λ j. ground (arith, live-flagged id j engine.index i h, s.unique j);
}

pub delete_event-HasSound :
    (out : Outside) (id : List ℕ) (engine : Engine)
    → HasSound engine
    → HasSound ((delete_event out id engine).0)
unfolding delete_event After
delete_event-HasSound out id engine s =
    if-cases After engine.initialized _ _
      (λ ready. delete_found-HasSound out id engine (find_index_entry id engine) refl s) (λ h. s)

Kept : Engine × ℕ → Type 0
unfolding HasSound
Kept r = HasSound (r.0)

purge_expired-HasSound :
    (out : Outside) (engine : Engine) → HasSound engine → HasSound ((purge_expired out engine).0)
unfolding purge_expired purge_ready Kept
purge_expired-HasSound out engine s =
    let p = purge_from out.now engine.index engine.files in
    let swept : Engine = record engine { index = p.kept; files = p.kept_files } in
    let fewer = λ (id : List ℕ). purge_from-live id out.now engine.index engine.files in
    let sound : HasSound swept = record {
      bounded = omega (arith, (fewer []).1, s.bounded);
      unique = λ id. omega (arith, (fewer id).0, s.unique id);
    } in
    if-cases Kept engine.initialized _ _
      (λ ready.
        if-cases HasSound (ltb 0 p.purged) (save_index out swept) swept
          (λ some_gone. save_index-HasSound out swept sound) (λ none_gone. sound))
      (λ h. s)

compact_index-HasSound :
    (out : Outside) (engine : Engine) → HasSound engine → HasSound ((compact_index out engine).0)
unfolding compact_index Kept Keeps
compact_index-HasSound out engine s =
    let same = (compact_ready-filter out engine).0 in
    if-cases Kept engine.initialized _ _
      (λ ready.
        subst (λ m. IsSound m ((compact_ready out engine).0).index)
          (sym ((compact_ready-Keeps out engine).0))
          (subst (IsSound engine.max_index_entries) (sym same) record {
            bounded = omega (
              arith,
              length-filter is_kept engine.index,
              count_if-le is_kept engine.index,
              s.bounded,
            );
            unique = λ id. omega (arith, live-filter id engine.index, s.unique id);
          }))
      (λ h. s)

storage_init-HasSound :
    (psram : Bool) (ttl : ℕ) (files : Files) (saved : Saved)
    → HasSound (storage_init nvs_missing psram ttl files saved)
unfolding storage_init HasSound live count_if
storage_init-HasSound psram ttl files saved = record {
  bounded = omega arith;
  unique = λ id. omega arith;
}

pub IsReached-HasSound : (engine : Engine) → IsReached engine → HasSound engine
IsReached-HasSound engine (started psram ttl files saved) =
    storage_init-HasSound psram ttl files saved
IsReached-HasSound engine (saving out json before r) =
    save_event_json-HasSound out json before (IsReached-HasSound before r)
IsReached-HasSound engine (deleting out id before r) =
    delete_event-HasSound out id before (IsReached-HasSound before r)
IsReached-HasSound engine (purging out before r) =
    purge_expired-HasSound out before (IsReached-HasSound before r)
IsReached-HasSound engine (compacting out before r) =
    compact_index-HasSound out before (IsReached-HasSound before r)

-- Whatever calls an engine that started without a saved index has taken, saves, deletions, removals
-- of expired events and compactions in any order and with any outcome of the file system, its index
-- fits the array allocated for it, and no event id stands in it twice without its deletion flag.
pub IsReached-sound :
    (engine : Engine) (id : List ℕ)
    → IsReached engine
    → (length engine.index ≤ engine.max_index_entries) × (live id engine.index ≤ 1)
unfolding HasSound
IsReached-sound engine id r = let s = IsReached-HasSound engine r in (s.bounded, s.unique id)
