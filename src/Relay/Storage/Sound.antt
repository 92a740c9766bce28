-- ===== src/Relay/Storage/Sound.antt =====
-- components/wisp_relay/storage_engine.c: how often an id stands in the index without its flag, and
-- what each operation does to that.
use tollgate_esp.Prelude.{
  ℕ, suc, ◌+◌, ◌≤◌, ◌≡◌, refl, ap, ◌∙◌, Bool, true, false, ◌&&◌, some, List, [], ◌∷◌, ◌++◌, ltb,
  if◌then◌else◌, if_yes, length, modify, count_if, filter, arith, text_eq, text_eq→eq, is_some,
  find_index, find_index-count_if, find_index_hit, count_if-filter, count_if-congr, count_if-modify,
  count_if-append,
}
use tollgate_esp.Relay.Storage.State.{
  Engine, IndexEntry, Outside, Files, Meta, is_live_id, find_index_entry,
}
use tollgate_esp.Relay.Storage.Calls.{flagged, new_entry, event_exists}
use tollgate_esp.Relay.Storage.Upkeep.{Purged, purge_entry, purge_file, purge_from, is_purged}
use tollgate_esp.Relay.Storage.Compaction.{is_kept}

-- How many entries have the id and are not deleted.
unfoldable pub live : List ℕ → List IndexEntry → ℕ
live id index = count_if (is_live_id id) index

pub find_index_entry-live :
    (id : List ℕ) (engine : Engine)
    → is_some (find_index_entry id engine) ≡ ltb 0 (live id engine.index)
unfolding find_index_entry live
find_index_entry-live id engine = find_index-count_if (is_live_id id) engine.index

pub event_exists-live :
    (id : List ℕ) (engine : Engine)
    → engine.initialized ≡ true
    → event_exists id engine ≡ ltb 0 (live id engine.index)
unfolding event_exists
event_exists-live id engine ready =
    if_yes engine.initialized (is_some (find_index_entry id engine)) false ready
    ∙ find_index_entry-live id engine

pub live-append :
    (id : List ℕ) (index : List IndexEntry) (out : Outside) (meta : Meta) (engine : Engine)
    → live id (index ++ new_entry out meta engine ∷ [])
      ≡ live id index + (if text_eq meta.meta_id id then 1 else 0)
unfolding live new_entry count_if is_live_id
live-append id index out meta engine =
    ground (arith, count_if-append (is_live_id id) index (new_entry out meta engine ∷ []))

-- The first entry with the id loses its place among them.
pub live-flagged :
    (id j : List ℕ) (index : List IndexEntry) (i : ℕ)
    → find_index (is_live_id id) index ≡ some i
    → live j (modify index i flagged) + (if text_eq id j then 1 else 0) ≡ live j index
unfolding live is_live_id flagged
live-flagged id j index i found =
    let (e, at, hit) = find_index_hit (is_live_id id) index i found in
    let same : e.event_id ≡ id = text_eq→eq e.event_id id (ground (arith, hit)) in
    let alike : text_eq e.event_id j ≡ text_eq id j = ap (λ k. text_eq k j) same in
    ground (arith, count_if-modify (is_live_id j) index i flagged e at, alike, hit)

pub live-filter :
    (id : List ℕ) (index : List IndexEntry) → live id (filter is_kept index) ≡ live id index
unfolding live is_kept is_live_id
live-filter id index =
    count_if-filter is_kept (is_live_id id) index
    ∙ count_if-congr (λ e. is_kept e && is_live_id id e) (is_live_id id) index (λ e. ground arith)

purge_entry-live :
    (id : List ℕ) (b : Bool) (e : IndexEntry) (rest : Purged) (es : List IndexEntry)
    → live id rest.kept ≤ live id es
    → length rest.kept ≡ length es
    → (live id (purge_entry b e rest).kept ≤ live id (e ∷ es))
      × (length (purge_entry b e rest).kept ≡ length (e ∷ es))
unfolding live purge_entry flagged is_live_id count_if
purge_entry-live id true e rest es fewer same = (ground (arith, fewer), ap suc same)
purge_entry-live id false e rest es fewer same = (ground (arith, fewer), ap suc same)

-- The removal of expired events adds no entry and brings none back.
pub purge_from-live :
    (id : List ℕ) (now : ℕ) (es : List IndexEntry) (fs : Files)
    → (live id (purge_from now es fs).kept ≤ live id es)
      × (length (purge_from now es fs).kept ≡ length es)
unfolding live purge_from count_if
purge_from-live id now [] fs = (omega arith, refl)
purge_from-live id now (e ∷ es) fs =
    let gone = is_purged now e in
    let (fewer, same) = purge_from-live id now es (purge_file gone e fs) in
    purge_entry-live id gone e (purge_from now es (purge_file gone e fs)) es fewer same
