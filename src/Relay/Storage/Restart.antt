-- ===== src/Relay/Storage/Restart.antt =====
-- components/wisp_relay/storage_engine.c: the index written to NVS in chunks, and read back.
use tollgate_esp.Prelude.{
  ℕ, zero, suc, ◌-◌, ◌≤◌, ◌<◌, ◌≡◌, refl, ap, ◌∙◌, Bool, true, Option, none, some, List, [], ◌∷◌,
  ◌++◌, ltb, leb, ◌==◌, if◌then◌else◌, if_yes, if_no, if-cases, take, drop, length, replicate,
  arith, append_nil, take-drop, length-drop, length-take_or,
}
use tollgate_esp.Relay.Storage.State.{
  Engine, IndexEntry, NvsKey, chunk_key, count_key, next_key, set_value, Outside, Saved, zero_entry,
  chunk_size, set_blob, save_chunks, save_index,
}
use tollgate_esp.Relay.Storage.Upkeep.{
  chunk_entries, nvs_opened, read_blob, load_chunks, load_index, loaded_or_fresh, storage_init,
  storage_destroy,
}

abbrev Blobs : Type 0
Blobs = ℕ → Option (List IndexEntry)

-- A chunk before those that are written.
save_chunks-below :
    (out : Outside) (n k j : ℕ) (es : List IndexEntry) (blobs : Blobs)
    → j < k
    → save_chunks out n k es blobs j ≡ blobs j
unfolding save_chunks set_blob
save_chunks-below out zero k j es blobs lt = refl
save_chunks-below out (suc n) k j [] blobs lt = refl
save_chunks-below out (suc n) k j (e ∷ es) blobs lt =
    let chunk = take chunk_size (e ∷ es) in
    let other : set_blob k chunk blobs j ≡ blobs j = if_no (k == j) _ _ (ground arith) in
    save_chunks-below out n (suc k) j _ _ (omega arith)
    ∙ if-cases (λ (after : Blobs). after j ≡ blobs j) (out.nvs_stores (chunk_key k)) _ _
        (λ stored. other) (λ lost. refl)

read_whole :
    (n : ℕ) (es : List IndexEntry) (blob : Option (List IndexEntry))
    → blob ≡ some es
    → length es ≡ n
    → read_blob n blob ≡ es
unfolding read_blob
read_whole n es blob there same =
    ap (read_blob n) there
    ∙ if_yes (leb (length es) n) _ _ (ground (arith, same))
    ∙ ap (λ left. es ++ replicate left zero_entry) {x = n - length es} {y = 0} (omega (arith, same))
    ∙ append_nil es

left_over :
    (all : List IndexEntry) → length all - chunk_entries (length all) ≡ length (drop chunk_size all)
unfolding chunk_entries
left_over all = ground (arith, length-drop chunk_size all)

load_chunks-save_chunks :
    (out : Outside) (n k m : ℕ) (es : List IndexEntry) (blobs : Blobs)
    → ((key : NvsKey) → out.nvs_stores key ≡ true)
    → length es ≤ n
    → length es ≤ m
    → load_chunks m k (length es) (save_chunks out n k es blobs) ≡ es
unfolding load_chunks save_chunks set_blob chunk_entries
load_chunks-save_chunks out n k zero [] blobs stores le lm = refl
load_chunks-save_chunks out n k (suc m) [] blobs stores le lm = refl
load_chunks-save_chunks out n k zero (e ∷ es) blobs stores le lm = absurd (ground (arith, lm))
load_chunks-save_chunks out zero k (suc m) (e ∷ es) blobs stores le lm = absurd (ground (arith, le))
load_chunks-save_chunks out (suc n) k (suc m) (e ∷ es) blobs stores le lm =
    let all : List IndexEntry = e ∷ es in
    let chunk = take chunk_size all in
    let rest = drop chunk_size all in
    let short = length-drop chunk_size all in
    let written : Blobs = if out.nvs_stores (chunk_key k) then set_blob k chunk blobs else blobs in
    let stored : Blobs = save_chunks out n (suc k) rest written in
    let there : stored k ≡ some chunk =
      save_chunks-below out n (suc k) k rest written (omega arith)
      ∙ ap (λ (b : Blobs). b k)
          (if_yes (out.nvs_stores (chunk_key k)) (set_blob k chunk blobs) blobs
            (stores (chunk_key k)))
      ∙ if_yes (k == k) _ _ (ground arith) in
    ap (λ es. es ++ load_chunks m (suc k) (length all - chunk_entries (length all)) stored)
      (read_whole (chunk_entries (length all)) chunk (stored k) there
        (length-take_or chunk_size all))
    ∙ ap (λ left. chunk ++ load_chunks m (suc k) left stored) (left_over all)
    ∙ ap (λ es. chunk ++ es)
        (load_chunks-save_chunks out n (suc k) m rest written stores (omega (arith, short, le))
          (omega (arith, short, lm)))
    ∙ take-drop chunk_size all

-- storage_destroy and then storage_init.
pub restarted : Outside → Bool → ℕ → Engine → Engine
restarted out psram ttl engine =
    let stopped = storage_destroy out engine in
    storage_init nvs_opened psram ttl stopped.files stopped.saved

copied : Outside → Engine → Saved
copied out engine = record {
  saved_count = some (length engine.index);
  saved_next = some engine.next_file_index;
  blobs = save_chunks out (length engine.index) 0 engine.index engine.saved.blobs;
}

load_index-copied :
    (out : Outside) (max : ℕ) (engine : Engine)
    → ((key : NvsKey) → out.nvs_stores key ≡ true)
    → length engine.index ≤ max
    → load_index max (copied out engine) ≡ some (engine.index, engine.next_file_index)
unfolding load_index copied
load_index-copied out max engine stores fits =
    let n = length engine.index in
    let blobs = save_chunks out n 0 engine.index engine.saved.blobs in
    ap (λ c. some (load_chunks c 0 c blobs, engine.next_file_index))
      (if_no (ltb max n) max n (ground (arith, fits)))
    ∙ ap (λ es. some (es, engine.next_file_index))
        (load_chunks-save_chunks out n 0 n engine.index engine.saved.blobs stores (omega arith)
          (omega arith))

all_stored :
    (out : Outside) (engine : Engine)
    → ((key : NvsKey) → out.nvs_stores key ≡ true)
    → record {
      saved_count =
          set_value (out.nvs_stores count_key) (length engine.index) engine.saved.saved_count;
      saved_next =
          set_value (out.nvs_stores next_key) engine.next_file_index engine.saved.saved_next;
      blobs = save_chunks out (length engine.index) 0 engine.index engine.saved.blobs;
    }
      ≡ copied out engine
unfolding copied set_value
all_stored out engine stores =
    let blobs = save_chunks out (length engine.index) 0 engine.index engine.saved.blobs in
    let next = set_value (out.nvs_stores next_key) engine.next_file_index engine.saved.saved_next in
    ap (λ c. record { saved_count = c; saved_next = next; blobs = blobs })
      (if_yes (out.nvs_stores count_key) _ _ (stores count_key))
    ∙ ap (λ c. record { saved_count = some (length engine.index); saved_next = c; blobs = blobs })
        (if_yes (out.nvs_stores next_key) _ _ (stores next_key))

stopped_files :
    (out : Outside) (engine : Engine)
    → engine.initialized ≡ true
    → out.nvs_opens ≡ true
    → ((key : NvsKey) → out.nvs_stores key ≡ true)
    → ((storage_destroy out engine).files ≡ engine.files)
      × ((storage_destroy out engine).saved ≡ copied out engine)
unfolding storage_destroy save_index copied set_value
stopped_files out engine ready opens stores =
    let run = if_yes engine.initialized _ engine ready in
    let saved_run = if_yes out.nvs_opens _ engine opens in
    (
      ap (λ (d : Engine). d.files) run ∙ ap (λ (d : Engine). d.files) saved_run,
      ap (λ (d : Engine). d.saved) run
          ∙ ap (λ (d : Engine). d.saved) saved_run
          ∙ all_stored out engine stores,
    )

-- An initialized engine whose index fits the array is stopped and started again, with that size of
-- the array, while NVS can be opened both times and every value that the stop sets is stored, which
-- needs room in the partition for all of the chunks: the started engine has the index, the next file
-- index and the files of the stopped one.
pub storage_init-storage_destroy :
    (out : Outside) (engine : Engine) (psram : Bool) (ttl : ℕ)
    → engine.initialized ≡ true
    → out.nvs_opens ≡ true
    → ((key : NvsKey) → out.nvs_stores key ≡ true)
    → length engine.index ≤ (if psram then 5000 else 1000)
    → ((restarted out psram ttl engine).index ≡ engine.index)
      × ((restarted out psram ttl engine).next_file_index ≡ engine.next_file_index)
      × ((restarted out psram ttl engine).files ≡ engine.files)
unfolding restarted storage_init loaded_or_fresh
storage_init-storage_destroy out engine psram ttl ready opens stores fits =
    let max = if psram then 5000 else 1000 in
    let (files, saved) = stopped_files out engine ready opens stores in
    let loaded : loaded_or_fresh nvs_opened max (storage_destroy out engine).saved
        ≡ (engine.index, engine.next_file_index) =
      ap (loaded_or_fresh nvs_opened max) saved
      ∙ ap (λ o. elim o [ none ↦ ([], 0) | some l ↦ l ])
          (load_index-copied out max engine stores fits) in
    (ap (λ l. l.0) loaded, ap (λ l. l.1) loaded, files)
