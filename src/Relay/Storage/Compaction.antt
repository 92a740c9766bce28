-- ===== src/Relay/Storage/Compaction.antt =====
-- components/wisp_relay/storage_engine.c: the in-place loop of storage_compact_index against the
-- filter it stands for.
use tollgate_esp.Prelude.{
  ℕ, zero, suc, ◌+◌, ◌≤◌, ◌≡◌, refl, sym, ap, subst, ◌∙◌, inl, inr, Bool, true, false, not, some,
  List, [], ◌∷◌, ◌++◌, ltb, ◌==◌, get_elem?, take, drop, length, count_if, filter, arith,
  Bool-cases, if_yes, if_no, if-cases, get_elem?-exists, get_elem?-lt, length-modify, append_nil,
  append_assoc, drop_cons, take_snoc, drop-modify, drop-length, take-modify_at, filter_all,
  take_all, filter_yes, filter_no,
}
use tollgate_esp.Relay.Storage.State.{Engine, IndexEntry, Outside, save_index}
use tollgate_esp.Relay.Storage.Upkeep.{
  Compaction, compact_at, compact_from, compact_ready, loop_start, compact_entry, copy_down,
}

unfoldable pub is_kept : IndexEntry → Bool
is_kept e = not e.deleted

is_kept_no : (e : IndexEntry) → e.deleted ≡ true → is_kept e ≡ false
unfolding is_kept
is_kept_no e h = ap not h

is_kept_yes : (e : IndexEntry) → e.deleted ≡ false → is_kept e ≡ true
unfolding is_kept
is_kept_yes e h = ap not h

pub is_gone : IndexEntry → Bool
is_gone e = not (not e.deleted)

module _ (w r : ℕ) (e : IndexEntry) (a : List IndexEntry) (at : get_elem? a r ≡ some e) where
  copy_down-take : w ≤ r → take (w + 1) (copy_down w r e a) ≡ take w a ++ e ∷ []
  unfolding copy_down
  copy_down-take le = elim (Bool-cases (w == r)) [
    | inl same ↦ rw same (
        subst (λ n. take n a ≡ take w a ++ e ∷ []) {x = suc w} (omega arith)
          (take_snoc a w e (subst (λ n. get_elem? a n ≡ some e) {x = r} {y = w} (ground arith) at)))
    | inr other ↦
        rw other (take-modify_at (w + 1) a w e refl (omega (arith, get_elem?-lt a r e at)))
  ]

  copy_down-drop : w ≤ r → drop (suc r) (copy_down w r e a) ≡ drop (suc r) a
  unfolding copy_down
  copy_down-drop le = elim (Bool-cases (w == r)) [
    | inl same ↦ rw same refl
    | inr other ↦ rw other (drop-modify a w (suc r) (λ old. e) (omega arith))
  ]

  length-copy_down : length (copy_down w r e a) ≡ length a
  unfolding copy_down
  length-copy_down = elim (Bool-cases (w == r)) [
    | inl same ↦ rw same refl
    | inr other ↦ rw other (length-modify a w (λ old. e))
  ]

-- The entries before write_idx.
written : Compaction → List IndexEntry
written c = take c.write_idx c.array

-- One round moves the entry from those not read yet to those written, or counts it.
module _ (r : ℕ) (e : IndexEntry) (c : Compaction) (at : get_elem? c.array r ≡ some e) where
  compact_entry-take :
      (b : Bool)
      → e.deleted ≡ b
      → c.write_idx ≤ r
      → written (compact_entry b r e c)
          ++ filter is_kept (drop (suc r) (compact_entry b r e c).array)
        ≡ written c ++ filter is_kept (drop r c.array)
  unfolding compact_entry written
  compact_entry-take true gone le =
      rw (drop_cons c.array r e at, filter_no is_kept e (drop (suc r) c.array) (is_kept_no e gone))
        refl
  compact_entry-take false kept le =
      rw
        (
          drop_cons c.array r e at,
          copy_down-take c.write_idx r e c.array at le,
          copy_down-drop c.write_idx r e c.array at le,
          filter_yes is_kept e (drop (suc r) c.array) (is_kept_yes e kept),
        )
        (append_assoc (take c.write_idx c.array) (e ∷ []) (filter is_kept (drop (suc r) c.array)))

  compact_entry-bounds :
      (b : Bool)
      → c.write_idx ≤ r
      → ((compact_entry b r e c).write_idx ≤ suc r)
        × (length (compact_entry b r e c).array ≡ length c.array)
  unfolding compact_entry
  compact_entry-bounds true le = (omega arith, refl)
  compact_entry-bounds false le = (omega arith, length-copy_down c.write_idx r e c.array at)

  compact_entry-compacted :
      (b : Bool)
      → e.deleted ≡ b
      → c.write_idx ≤ r
      → (compact_entry b r e c).compacted
          + count_if is_gone (drop (suc r) (compact_entry b r e c).array)
        ≡ c.compacted + count_if is_gone (drop r c.array)
  unfolding compact_entry count_if is_gone
  compact_entry-compacted true gone le =
      rw (drop_cons c.array r e at) (ground (arith, is_kept_no e gone))
  compact_entry-compacted false kept le =
      rw (drop_cons c.array r e at, copy_down-drop c.write_idx r e c.array at le)
        (ground (arith, is_kept_yes e kept))

-- What is written when n rounds are left at read_idx r, and how much is counted.
IsCompaction : ℕ → Compaction → Compaction → Type 0
IsCompaction r c d =
    (written d ≡ written c ++ filter is_kept (drop r c.array))
    × (d.compacted ≡ c.compacted + count_if is_gone (drop r c.array))
    × (length d.array ≡ length c.array)

compact_from-IsCompaction :
    (n r : ℕ) (c : Compaction)
    → c.write_idx ≤ r
    → r + n ≡ length c.array
    → IsCompaction r c (compact_from n r c)
unfolding compact_from compact_at written filter count_if IsCompaction
compact_from-IsCompaction zero r c le end =
    rw (subst (λ k. drop k c.array ≡ []) {y = r} (omega arith) (drop-length c.array))
      (sym (append_nil (written c)), omega arith, refl)
compact_from-IsCompaction (suc n) r c le end =
    let (e, at) = get_elem?-exists c.array r (omega arith) in
    let d : Compaction = compact_entry e.deleted r e c in
    let (behind, same) = compact_entry-bounds r e c at e.deleted le in
    let (front, counted, fixed) =
      compact_from-IsCompaction n (suc r) d behind (omega (arith, same, end)) in
    subst (λ x. IsCompaction r c (compact_from n (suc r) x)) (sym (ap (λ o. compact_at r o c) at))
      (
        front ∙ compact_entry-take r e c at e.deleted refl le,
        counted ∙ compact_entry-compacted r e c at e.deleted refl le,
        fixed ∙ same,
      )

pub save_index-index :
    (out : Outside) (engine : Engine) → (save_index out engine).index ≡ engine.index
unfolding save_index
save_index-index out engine = elim (Bool-cases out.nvs_opens) [
  | inl h ↦ rw h refl
  | inr h ↦ rw h refl
]

whole :
    (index : List IndexEntry)
    → IsCompaction 0 (loop_start index) (compact_from (length index) 0 (loop_start index))
unfolding loop_start
whole index =
    compact_from-IsCompaction (length index) 0 (loop_start index) (omega arith) (omega arith)

-- Where nothing was counted the array is as it was.
nothing_moved :
    (index : List IndexEntry)
    → (compact_from (length index) 0 (loop_start index)).compacted ≡ 0
    → (compact_from (length index) 0 (loop_start index)).array ≡ filter is_kept index
unfolding loop_start IsCompaction written is_gone is_kept
nothing_moved index none_gone =
    let (front, counted, fixed) = whole index in
    let all_kept = filter_all is_kept index (omega (arith, counted, none_gone)) in
    sym (take_all _ _ (ap length front ∙ ap length all_kept ∙ sym fixed)) ∙ front

-- The two ways out of the loop.
some_removed : Outside → Engine → Compaction → Engine × ℕ
some_removed out engine c =
    (save_index out record engine { index = take c.write_idx c.array }, c.compacted)

none_removed : Engine → Compaction → Engine × ℕ
none_removed engine c = (record engine { index = c.array }, c.compacted)

pub compact_ready-filter :
    (out : Outside) (engine : Engine)
    → (((compact_ready out engine).0).index ≡ filter is_kept engine.index)
      × ((compact_ready out engine).1 ≡ count_if is_gone engine.index)
unfolding compact_ready IsCompaction some_removed none_removed written loop_start
compact_ready-filter out engine =
    let c : Compaction = compact_from (length engine.index) 0 (loop_start engine.index) in
    let (front, counted, fixed) = whole engine.index in
    let sum : (compact_from (length engine.index) 0 (loop_start engine.index)).compacted
        ≡ count_if is_gone engine.index =
      omega (arith, counted) in
    let yes_case = if_yes (ltb 0 c.compacted) (some_removed out engine c) (none_removed engine c) in
    let no_case = if_no (ltb 0 c.compacted) (some_removed out engine c) (none_removed engine c) in
    elim (Bool-cases (ltb 0 c.compacted)) [
      | inl some_gone ↦ (
        ap (λ r. (r.0).index) (yes_case some_gone) ∙ save_index-index out _ ∙ front,
        ap (λ r. r.1) (yes_case some_gone) ∙ sum,
      )
      | inr none_gone ↦ (
        ap (λ r. (r.0).index) (no_case none_gone)
            ∙ nothing_moved engine.index (ground (arith, none_gone)),
        ap (λ r. r.1) (no_case none_gone) ∙ sum,
      )
    ]

-- What compaction and the copy in NVS leave alone.
unfoldable pub Keeps : Engine → Engine → Type 0
Keeps before after =
    (after.max_index_entries ≡ before.max_index_entries)
    × (after.files ≡ before.files)
    × (after.initialized ≡ before.initialized)

pub save_index-Keeps : (out : Outside) (engine : Engine) → Keeps engine (save_index out engine)
unfolding save_index Keeps
save_index-Keeps out engine = elim (Bool-cases out.nvs_opens) [
  | inl h ↦ rw h (refl, refl, refl)
  | inr h ↦ rw h (refl, refl, refl)
]

KeepsIn : Engine → Engine × ℕ → Type 0
unfolding Keeps
KeepsIn before r = Keeps before (r.0)

pub compact_ready-Keeps :
    (out : Outside) (engine : Engine) → Keeps engine ((compact_ready out engine).0)
unfolding compact_ready Keeps KeepsIn
compact_ready-Keeps out engine =
    let c = compact_from (length engine.index) 0 (loop_start engine.index) in
    if-cases (KeepsIn engine) (ltb 0 c.compacted) _ _
      (λ some_gone. save_index-Keeps out record engine { index = take c.write_idx c.array })
      (λ none_gone. (refl, refl, refl))
