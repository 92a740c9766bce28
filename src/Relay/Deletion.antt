-- ===== src/Relay/Deletion.antt =====
-- components/wisp_relay/deletion.c: what a deletion event (NIP-09) removes. The texts that the code
-- reads after cJSON_Delete are taken to be unchanged.
use tollgate_esp.Prelude.{
  ℕ, zero, suc, ◌+◌, Bool, true, false, not, Option, none, some, List, [], ◌∷◌, ◌++◌, ◌==◌,
  if◌then◌else◌, take, drop, length, replicate, Text, codes, text_eq, is_empty,
}
use tollgate_esp.Prelude.Int.{ℤ, pos, negsuc}
use tollgate_esp.Payment.Token.{c_str}
use tollgate_esp.Relay.Outside.{Json}
use tollgate_esp.Prelude.Numbers.{atoi}
use tollgate_esp.Relay.Scan.{relay_hex_to_bytes, scan_int, scan_until}
use tollgate_esp.Relay.Storage.State.{Engine, Outside, StorageError, storage_ok}
use tollgate_esp.Relay.Storage.Calls.{delete_event, query_events_json}
pub mod Tags

abbrev pub is_ok : StorageError → Bool
is_ok storage_ok = true
is_ok e = false

-- The results of a query, none where the engine is not initialized: *count is the caller's 0.
unfoldable pub or_nothing : Option (List Text) → List Text
or_nothing none = []
or_nothing (some bodies) = bodies

-- `kind == NOSTR_KIND_DELETION`.
unfoldable pub is_deletion : ℤ → Bool
is_deletion (pos n) = n == 5
is_deletion (negsuc n) = false

module _ (J : Json) where
  unfoldable pub string_of : Option (Json.Node J) → Option Text
  string_of none = none
  string_of (some node) = if J.is_string node then J.valuestring node else none

  -- The `continue`s on a tag: its value, where it is an array that starts with the name and a string.
  unfoldable pub tag_value : Text → Option (Json.Node J) → Option Text
  unfolding string_of
  tag_value name none = none
  tag_value name (some tag) =
      if not (J.is_array tag) then none else elim (string_of (J.array_item tag 0)) [
        | none ↦ none
        | some n ↦ if text_eq n name then string_of (J.array_item tag 1) else none
      ]

  -- The tags of the event, where they are an array.
  unfoldable pub tags_of : Text → Option (Json.Node J)
  tags_of json = elim (J.parse json) [
    | none ↦ none
    | some obj ↦ elim (J.get_object_item obj (codes "tags")) [
      | none ↦ none
      | some tags ↦ if J.is_array tags then some tags else none
    ]
  ]

  -- extract_event_id_field, `none` for a result that is not 0.
  extract_event_id_field : Text → Option (List ℕ)
  unfolding string_of
  extract_event_id_field json = elim (J.parse json) [
    | none ↦ none
    | some obj ↦ elim (string_of (J.get_object_item obj (codes "id"))) [
      | none ↦ none
      | some id ↦
          if length id == 64
          then (let (bytes, fine) = relay_hex_to_bytes id 64 32 in
              if fine then some bytes else none)
          else none
    ]
  ]

module _ (J : Json) (out : Outside) where
  -- One call of storage_delete_event, which `deleted` counts where it succeeds.
  delete_counted : List ℕ → Engine × ℕ → Engine × ℕ
  delete_counted id (engine, deleted) =
      let (after, err) = delete_event out id engine in
      (after, if is_ok err then deleted + 1 else deleted)

  -- The body of the loop of delete_by_e_tags.
  delete_e : Option Text → Engine × ℕ → Engine × ℕ
  unfolding delete_counted
  delete_e none s = s
  delete_e (some value) s =
      let (event_id, fine) = relay_hex_to_bytes value 64 32 in
      if fine then delete_counted event_id s else s

  -- Over n tags from i on.
  e_tags_from : Json.Node J → ℕ → ℕ → Engine × ℕ → Engine × ℕ
  unfolding tag_value delete_e
  e_tags_from tags zero i s = s
  e_tags_from tags (suc n) i s =
      e_tags_from tags n (suc i) (delete_e (tag_value J (codes "e") (J.array_item tags i)) s)

  -- delete_by_e_tags, which does not look at the key of the deleter.
  pub delete_by_e_tags : Text → Engine → Engine × ℕ
  unfolding e_tags_from tags_of
  delete_by_e_tags json engine = elim (tags_of J json) [
    | none ↦ (engine, 0)
    | some tags ↦ e_tags_from tags (J.array_size tags) 0 (engine, 0)
  ]

  -- The loop over the results in delete_by_a_tags: the id is the first 32 bytes of the text, which
  -- has at least as many where it is an event.
  delete_texts : List Text → Engine × ℕ → Engine × ℕ
  unfolding delete_counted
  delete_texts [] s = s
  delete_texts (body ∷ bodies) s = delete_texts bodies (delete_counted (take 32 body) s)

  -- The scan of "kind:pubkey:d", and the query.
  delete_a : Text → Option Text → Engine × ℕ → Engine × ℕ
  unfolding delete_texts or_nothing
  delete_a deleter none s = s
  delete_a deleter (some value) s = elim (scan_int value) [
    | none ↦ s
    | some (kind, rest) ↦
        let pubkey = scan_until 64 b':' (drop 1 rest) in
        if not (text_eq (take 1 rest) (codes ":"))
        then s
        else if is_empty pubkey
        then s
        else if not (text_eq pubkey deleter)
        then s
        else delete_texts (or_nothing (query_events_json out kind (some pubkey) (pos 100) s.0)) s
  ]

  a_tags_from : Text → Json.Node J → ℕ → ℕ → Engine × ℕ → Engine × ℕ
  unfolding tag_value delete_a
  a_tags_from deleter tags zero i s = s
  a_tags_from deleter tags (suc n) i s =
      a_tags_from deleter tags n (suc i)
        (delete_a deleter (tag_value J (codes "a") (J.array_item tags i)) s)

  -- delete_by_a_tags.
  delete_by_a_tags : Text → Text → Engine → Engine × ℕ
  unfolding a_tags_from tags_of
  delete_by_a_tags json deleter engine = elim (tags_of J json) [
    | none ↦ (engine, 0)
    | some tags ↦ a_tags_from deleter tags (J.array_size tags) 0 (engine, 0)
  ]

  -- The loop over the results in delete_by_k_tags, which counts whatever the call returns.
  delete_bodies : List Text → Engine × ℕ → Engine × ℕ
  unfolding extract_event_id_field
  delete_bodies [] s = s
  delete_bodies (body ∷ bodies) (engine, deleted) =
      delete_bodies bodies (elim (extract_event_id_field J (c_str body)) [
        | none ↦ (engine, deleted)
        | some eid ↦ ((delete_event out eid engine).0, deleted + 1)
      ])

  delete_k : Text → Option Text → Engine × ℕ → Engine × ℕ
  unfolding delete_bodies or_nothing
  delete_k deleter none s = s
  delete_k deleter (some value) s =
      delete_bodies (or_nothing (query_events_json out (atoi value) (some deleter) (pos 500) s.0)) s

  k_tags_from : Text → Json.Node J → ℕ → ℕ → Engine × ℕ → Engine × ℕ
  unfolding tag_value delete_k
  k_tags_from deleter tags zero i s = s
  k_tags_from deleter tags (suc n) i s =
      k_tags_from deleter tags n (suc i)
        (delete_k deleter (tag_value J (codes "k") (J.array_item tags i)) s)

  -- delete_by_k_tags.
  delete_by_k_tags : Text → Text → Engine → Engine × ℕ
  unfolding k_tags_from tags_of
  delete_by_k_tags json deleter engine = elim (tags_of J json) [
    | none ↦ (engine, 0)
    | some tags ↦ k_tags_from deleter tags (J.array_size tags) 0 (engine, 0)
  ]

  delete_by_tags : Text → Text → Engine → Engine × ℕ
  unfolding delete_by_e_tags delete_by_a_tags delete_by_k_tags
  delete_by_tags json deleter engine =
      let (e, by_e) = delete_by_e_tags json engine in
      let (a, by_a) = delete_by_a_tags json deleter e in
      let (k, by_k) = delete_by_k_tags json deleter a in (k, by_e + by_a + by_k)

  kind_of : Json.Node J → ℤ
  kind_of obj = elim (J.get_object_item obj (codes "kind")) [
    | none ↦ pos 0
    | some node ↦ J.valueint node
  ]

  -- "pubkey", or the empty text where it is missing; `none` is the strdup of a NULL.
  pubkey_of : Json.Node J → Option Text
  pubkey_of obj = elim (J.get_object_item obj (codes "pubkey")) [
    | none ↦ some []
    | some node ↦ J.valuestring node
  ]

  -- deletion_process_json; a read through NULL is `none`.
  pub deletion_process_json : Text → Engine → Option (Engine × ℕ)
  unfolding delete_by_tags kind_of pubkey_of is_deletion
  deletion_process_json json engine = elim (J.parse json) [
    | none ↦ some (engine, 0)
    | some obj ↦
        if not (is_deletion (kind_of obj)) then some (engine, 0) else elim (pubkey_of obj) [
          | none ↦ none
          | some deleter ↦ some (delete_by_tags json deleter engine)
        ]
  ]
