-- ===== src/Relay/Storage/State.antt =====
-- components/wisp_relay/storage_engine.c and .h: the index, the files of the events, and the copy
-- of the index that NVS keeps.
use tollgate_esp.Prelude.{
  ℕ, zero, suc, ◌-◌, ◌%◌, Bool, false, not, ◌&&◌, Option, none, some, List, [], ◌∷◌, ◌++◌, ◌==◌,
  if◌then◌else◌, find_index, take, drop, length, replicate, Text, codes, text_eq, to_hex,
}
use tollgate_esp.Prelude.Int.{ℤ, pos, negsuc}
use tollgate_esp.Ehash.Packet.{put_u32_be}
use tollgate_esp.Prelude.Numbers.{atoi, strtoull}
use tollgate_esp.Relay.Scan.{after_first, relay_hex_to_bytes}

-- STORAGE_MAX_EVENT_SIZE and STORAGE_INDEX_ENTRIES.
abbrev pub max_event_size : ℕ
max_event_size = 8192

abbrev pub index_entries : ℕ
index_entries = 5000

-- storage_error_t, of which the code returns these.
pub data StorageError : Type 0 where
  storage_ok : StorageError
  not_initialized : StorageError
  full : StorageError
  duplicate : StorageError
  not_found : StorageError
  io : StorageError

-- storage_index_entry_t; `deleted` is STORAGE_FLAG_DELETED, the only flag.
pub record IndexEntry : Type 0 where
  pub event_id : List ℕ
  pub created_at : ℕ
  pub expires_at : ℕ
  pub file_index : ℕ
  pub kind : ℕ
  pub pubkey_prefix : List ℕ
  pub deleted : Bool

-- An entry of a block from calloc.
abbrev pub zero_entry : IndexEntry
zero_entry = record {
  event_id = replicate 32 0;
  created_at = 0;
  expires_at = 0;
  file_index = 0;
  kind = 0;
  pubkey_prefix = replicate 4 0;
  deleted = false;
}

-- What NVS holds under the names "count" and "next_idx", and under "idx_0", "idx_1" and so on.
pub record Saved : Type 0 where
  pub saved_count : Option ℕ
  pub saved_next : Option ℕ
  pub blobs : ℕ → Option (List IndexEntry)

-- The files, by their path.
abbrev pub Files : Type 0
Files = Text → Option Text

-- storage_engine_t, with the two stores it works on; `index` is the entries below index_count.
pub record Engine : Type 0 where
  pub initialized : Bool
  pub index : List IndexEntry
  pub max_index_entries : ℕ
  pub next_file_index : ℕ
  pub default_ttl_sec : ℕ
  pub files : Files
  pub saved : Saved

-- The names that save_index_to_nvs sets: "count", "next_idx", and "idx_0", "idx_1" and so on.
pub data NvsKey : Type 0 where
  count_key : NvsKey
  next_key : NvsKey
  chunk_key : ℕ → NvsKey

-- What a call meets: time(NULL), whether nvs_open succeeds, whether a value that is set under a name
-- is stored, which the code does not ask, whether the two calls of fopen for writing succeed, and how
-- many bytes fwrite writes.
pub record Outside : Type 0 where
  pub now : ℕ
  pub nvs_opens : Bool
  pub nvs_stores : NvsKey → Bool
  pub opens : Bool
  pub opens_again : Bool
  pub written : ℕ

-- get_event_path.
unfoldable pub event_path : List ℕ → ℕ → Text
event_path id file_index =
    codes "/littlefs/events/"
    ++ to_hex (take 1 id)
    ++ codes "/"
    ++ to_hex (take 16 id)
    ++ codes "_"
    ++ to_hex (put_u32_be file_index)
    ++ codes ".json"

-- fopen with "wb", fwrite and fclose; and unlink.
unfoldable pub write_file : Text → Text → Files → Files
write_file path body fs p = if text_eq path p then some body else fs p

unfoldable pub unlink : Text → Files → Files
unlink path fs p = if text_eq path p then none else fs p

-- The test of find_index_entry.
unfoldable pub is_live_id : List ℕ → IndexEntry → Bool
is_live_id id e = text_eq e.event_id id && not e.deleted

-- find_index_entry.
unfoldable pub find_index_entry : List ℕ → Engine → Option ℕ
unfolding is_live_id
find_index_entry id engine = find_index (is_live_id id) engine.index

-- The chunks of save_index_to_nvs, of 50 entries: n is at least the number of chunks left.
abbrev pub chunk_size : ℕ
chunk_size = 50

unfoldable pub set_blob :
    ℕ → List IndexEntry → (ℕ → Option (List IndexEntry)) → ℕ → Option (List IndexEntry)
set_blob k es blobs j = if k == j then some es else blobs j

unfoldable pub save_chunks :
    Outside
    → ℕ
    → ℕ
    → List IndexEntry
    → (ℕ → Option (List IndexEntry))
    → ℕ
    → Option (List IndexEntry)
unfolding set_blob
save_chunks out zero k es blobs = blobs
save_chunks out (suc n) k [] blobs = blobs
save_chunks out (suc n) k (e ∷ es) blobs =
    let chunk = take chunk_size (e ∷ es) in
    save_chunks out n (suc k) (drop chunk_size (e ∷ es))
      (if out.nvs_stores (chunk_key k) then set_blob k chunk blobs else blobs)

-- nvs_set_u16 and nvs_set_u32 with the commit: the value that NVS then has.
unfoldable pub set_value : Bool → ℕ → Option ℕ → Option ℕ
set_value stored value old = if stored then some value else old

-- save_index_to_nvs; a value that is not stored leaves what NVS had under the name.
unfoldable pub save_index : Outside → Engine → Engine
unfolding save_chunks set_value
save_index out engine =
    let old = engine.saved in
    if out.nvs_opens
    then record engine {
      saved = record {
        saved_count = set_value (out.nvs_stores count_key) (length engine.index) old.saved_count;
        saved_next = set_value (out.nvs_stores next_key) engine.next_file_index old.saved_next;
        blobs = save_chunks out (length engine.index) 0 engine.index old.blobs;
      };
    }
    else engine

-- The fields that parse_event_meta reads.
pub record Meta : Type 0 where
  pub meta_id : List ℕ
  pub meta_pubkey : List ℕ
  pub meta_created_at : ℕ
  pub meta_kind : ℤ

unfoldable pub bytes_after : Text → Text → List ℕ
bytes_after name json = elim (after_first name json) [
  | none ↦ replicate 32 0
  | some p ↦ (relay_hex_to_bytes p 64 32).0
]

-- parse_event_meta, which ignores the results of relay_hex_to_bytes.
unfoldable pub parse_event_meta : Text → Meta
unfolding bytes_after
parse_event_meta json = record {
  meta_id = bytes_after (codes "\"id\":\"") json;
  meta_pubkey = bytes_after (codes "\"pubkey\":\"") json;
  meta_created_at = elim (after_first (codes "\"created_at\":") json) [
    | none ↦ 0
    | some p ↦ strtoull p
  ];
  meta_kind = elim (after_first (codes "\"kind\":") json) [ none ↦ pos 0 | some p ↦ atoi p ];
}

-- (uint16_t) of an int.
unfoldable pub to_uint16 : ℤ → ℕ
to_uint16 (pos n) = n % 65536
to_uint16 (negsuc n) = 65535 - n % 65536
