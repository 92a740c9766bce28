-- ===== src/Relay/Storage/Upkeep.antt =====
-- components/wisp_relay/storage_engine.c: start, stop, the removal of expired events, compaction of
-- the index, the statistics, and the task that does both in turn.
use tollgate_esp.Prelude.{
  ℕ, zero, suc, ◌+◌, ◌-◌, Bool, true, false, not, ◌&&◌, Option, none, some, List, [], ◌∷◌, ◌++◌,
  leb, ltb, ◌==◌, if◌then◌else◌, get_elem?, take, length, replicate, modify, count_if,
}
use tollgate_esp.Relay.Storage.State.{
  Engine, IndexEntry, Files, Outside, Saved, zero_entry, chunk_size, event_path, index_entries,
  save_index, unlink,
}
use tollgate_esp.Relay.Storage.Calls.{flagged, has_expired}

-- nvs_get_blob of so many entries into a block from calloc: a longer blob is refused, and a shorter
-- one leaves the rest.
unfoldable pub read_blob : ℕ → Option (List IndexEntry) → List IndexEntry
read_blob n none = replicate n zero_entry
read_blob n (some es) =
    if leb (length es) n then es ++ replicate (n - length es) zero_entry else replicate n zero_entry

-- `if (entries > chunk_size) entries = chunk_size`.
unfoldable pub chunk_entries : ℕ → ℕ
chunk_entries left = if ltb chunk_size left then chunk_size else left

-- The chunks of load_index_from_nvs: n is at least the number of chunks left, `left` the entries.
unfoldable pub load_chunks : ℕ → ℕ → ℕ → (ℕ → Option (List IndexEntry)) → List IndexEntry
unfolding read_blob chunk_entries
load_chunks zero k left blobs = []
load_chunks (suc n) k zero blobs = []
load_chunks (suc n) k (suc left) blobs =
    read_blob (chunk_entries (suc left)) (blobs k)
    ++ load_chunks n (suc k) (suc left - chunk_entries (suc left)) blobs

-- The index and the next file index that load_index_from_nvs leaves; `none` is STORAGE_ERR_IO.
unfoldable pub load_index : ℕ → Saved → Option (List IndexEntry × ℕ)
unfolding load_chunks
load_index max saved = elim saved.saved_count [
  | none ↦ none
  | some count ↦
      let capped = if ltb max count then max else count in
      elim saved.saved_next [
        | none ↦ none
        | some next ↦ some (load_chunks capped 0 capped saved.blobs, next)
      ]
]

-- How nvs_open with NVS_READONLY ends.
pub data NvsOpen : Type 0 where
  nvs_opened : NvsOpen
  nvs_missing : NvsOpen
  nvs_refused : NvsOpen

unfoldable pub loaded_or_fresh : NvsOpen → ℕ → Saved → List IndexEntry × ℕ
unfolding load_index
loaded_or_fresh nvs_missing max saved = ([], 0)
loaded_or_fresh nvs_refused max saved = ([], 0)
loaded_or_fresh nvs_opened max saved = elim (load_index max saved) [
  | none ↦ ([], 0)
  | some loaded ↦ loaded
]

-- storage_init, where the mutex, the index and the file system are had; `psram` says whether the
-- index is allocated in the external memory.
unfoldable pub storage_init : NvsOpen → Bool → ℕ → Files → Saved → Engine
unfolding loaded_or_fresh
storage_init nvs psram default_ttl_sec files saved =
    let max = if psram then index_entries else 1000 in
    let (index, next) = loaded_or_fresh nvs max saved in
    record {
      initialized = true;
      index = index;
      max_index_entries = max;
      next_file_index = next;
      default_ttl_sec = default_ttl_sec;
      files = files;
      saved = saved;
    }

-- storage_destroy, once the cleanup task has ended: the index is freed.
unfoldable pub storage_destroy : Outside → Engine → Engine
storage_destroy out engine =
    if engine.initialized
    then record (save_index out engine) { index = []; initialized = false }
    else engine

-- What the loop of storage_purge_expired leaves of the index and the files.
pub record Purged : Type 0 where
  pub kept : List IndexEntry
  pub kept_files : Files
  pub purged : ℕ

unfoldable pub is_purged : ℕ → IndexEntry → Bool
unfolding has_expired
is_purged now e = not e.deleted && has_expired now e

-- The body of the loop on an entry, before and after the rounds that follow it.
unfoldable pub purge_file : Bool → IndexEntry → Files → Files
unfolding unlink
purge_file true e fs = unlink (event_path e.event_id e.file_index) fs
purge_file false e fs = fs

unfoldable pub purge_entry : Bool → IndexEntry → Purged → Purged
unfolding flagged
purge_entry true e rest = record rest { kept = flagged e ∷ rest.kept; purged = suc rest.purged }
purge_entry false e rest = record rest { kept = e ∷ rest.kept }

unfoldable pub purge_from : ℕ → List IndexEntry → Files → Purged
unfolding is_purged purge_file purge_entry
purge_from now [] fs = record { kept = []; kept_files = fs; purged = 0 }
purge_from now (e ∷ es) fs =
    purge_entry (is_purged now e) e (purge_from now es (purge_file (is_purged now e) e fs))

-- storage_purge_expired, once the engine is initialized.
unfoldable pub purge_ready : Outside → Engine → Engine × ℕ
unfolding purge_from
purge_ready out engine =
    let p = purge_from out.now engine.index engine.files in
    let swept = record engine { index = p.kept; files = p.kept_files } in
    (if ltb 0 p.purged then save_index out swept else swept, p.purged)

-- storage_purge_expired.
unfoldable pub purge_expired : Outside → Engine → Engine × ℕ
unfolding purge_ready
purge_expired out engine = if engine.initialized then purge_ready out engine else (engine, 0)

-- The array, write_idx and `compacted` in the loop of storage_compact_index.
pub record Compaction : Type 0 where
  pub array : List IndexEntry
  pub write_idx : ℕ
  pub compacted : ℕ

-- `if (write_idx != read_idx) memcpy(...)`.
unfoldable pub copy_down : ℕ → ℕ → IndexEntry → List IndexEntry → List IndexEntry
copy_down w r e array = if not (w == r) then modify array w (λ old. e) else array

-- One round, at an entry that has its flag set or not.
unfoldable pub compact_entry : Bool → ℕ → IndexEntry → Compaction → Compaction
unfolding copy_down
compact_entry true read_idx e c = record c { compacted = c.compacted + 1 }
compact_entry false read_idx e c = record c {
  array = copy_down c.write_idx read_idx e c.array;
  write_idx = c.write_idx + 1;
}

unfoldable pub compact_at : ℕ → Option IndexEntry → Compaction → Compaction
unfolding compact_entry
compact_at read_idx none c = c
compact_at read_idx (some e) c = compact_entry e.deleted read_idx e c

-- The loop over n entries from read_idx on.
unfoldable pub compact_from : ℕ → ℕ → Compaction → Compaction
unfolding compact_at
compact_from zero read_idx c = c
compact_from (suc n) read_idx c =
    compact_from n (suc read_idx) (compact_at read_idx (get_elem? c.array read_idx) c)

-- The array as the loop finds it.
unfoldable pub loop_start : List IndexEntry → Compaction
loop_start index = record { array = index; write_idx = 0; compacted = 0 }

-- storage_compact_index, once the engine is initialized; the entries from write_idx on are not in
-- the index any more.
unfoldable pub compact_ready : Outside → Engine → Engine × ℕ
unfolding compact_from loop_start
compact_ready out engine =
    let c = compact_from (length engine.index) 0 (loop_start engine.index) in
    if ltb 0 c.compacted
    then (save_index out record engine { index = take c.write_idx c.array }, c.compacted)
    else (record engine { index = c.array }, c.compacted)

-- storage_compact_index.
unfoldable pub compact_index : Outside → Engine → Engine × ℕ
unfolding compact_ready
compact_index out engine = if engine.initialized then compact_ready out engine else (engine, 0)

-- total_events of storage_get_stats.
pub total_events : Outside → Engine → ℕ
unfolding has_expired
total_events out engine =
    if engine.initialized
    then count_if (λ e. not e.deleted && not (has_expired out.now e)) engine.index
    else 0

-- A cycle of storage_cleanup_task, with the number of cycles since the last compaction.
pub cleanup_cycle : Outside → Engine × ℕ → Engine × ℕ
unfolding purge_expired compact_index
cleanup_cycle out (engine, cycles) =
    let (swept, n) = purge_expired out engine in
    if leb 10 (cycles + 1) then ((compact_index out swept).0, 0) else (swept, cycles + 1)
