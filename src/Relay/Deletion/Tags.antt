-- ===== src/Relay/Deletion/Tags.antt =====
-- components/wisp_relay/deletion.c: what is left of the events that the e tags of a deletion name.
use tollgate_esp.Prelude.{
  ℕ, zero, suc, ◌+◌, ◌≤◌, ◌<◌, ◌≡◌, refl, sym, ap, ◌∙◌, inl, inr, Bool, true, false, Option, none,
  some, List, if◌then◌else◌, if_no, if-cases, is_some, ltb, ◌==◌, Bool-cases, Text, codes, arith,
}
use tollgate_esp.Relay.Outside.{Json}
use tollgate_esp.Relay.Scan.{relay_hex_to_bytes}
use tollgate_esp.Relay.Storage.State.{Engine, Outside, StorageError, find_index_entry}
use tollgate_esp.Relay.Storage.Calls.{delete_event, delete_found, event_exists}
use tollgate_esp.Relay.Storage.Sound.{event_exists-live, find_index_entry-live, live}
use tollgate_esp.Relay.Storage.Reach.{
  HasSound, IsReached, IsReached-HasSound, delete_event-HasSound,
}
use tollgate_esp.Relay.Storage.Effects.{delete_found-gone}
use tollgate_esp.Relay.Deletion.{
  delete_by_e_tags, delete_counted, delete_e, e_tags_from, tag_value, tags_of,
}

asleep :
    (id : List ℕ) (engine : Engine) → engine.initialized ≡ false → event_exists id engine ≡ false
unfolding event_exists
asleep id engine off = if_no engine.initialized _ false off

no_event :
    (id : List ℕ) (engine : Engine)
    → engine.initialized ≡ true
    → live id engine.index ≡ 0
    → event_exists id engine ≡ false
no_event id engine ready none_left = event_exists-live id engine ready ∙ ap (ltb 0) none_left

no_entry :
    (id : List ℕ) (engine : Engine)
    → engine.initialized ≡ true
    → event_exists id engine ≡ false
    → live id engine.index ≡ 0
no_entry id engine ready absent = ground (arith, sym (event_exists-live id engine ready) ∙ absent)

module _ (out : Outside) (id : List ℕ) (engine : Engine) (ready : engine.initialized ≡ true)
    (once : live id engine.index ≤ 1) where
  delete_found-absent :
      (found : Option ℕ)
      → find_index_entry id engine ≡ found
      → event_exists id ((delete_found out found engine).0) ≡ false
  unfolding delete_found
  delete_found-absent none h =
      event_exists-live id engine ready ∙ sym (find_index_entry-live id engine) ∙ ap is_some h
  delete_found-absent (some i) h =
      let (ok, gone, others, init) = delete_found-gone out id id engine (some i) h once refl in
      no_event id ((delete_found out (some i) engine).0) (init ∙ ready) gone

  delete_found-stays :
      (j : List ℕ) (found : Option ℕ)
      → find_index_entry id engine ≡ found
      → event_exists j engine ≡ false
      → event_exists j ((delete_found out found engine).0) ≡ false
  unfolding delete_found
  delete_found-stays j none h absent = absent
  delete_found-stays j (some i) h absent =
      let (ok, gone, others, init) = delete_found-gone out id j engine (some i) h once refl in
      no_event j ((delete_found out (some i) engine).0) (init ∙ ready)
        (ground (arith, others, no_entry j engine ready absent))

IsAbsent : List ℕ → Engine × StorageError → Type 0
IsAbsent j r = event_exists j (r.0) ≡ false

module _ (out : Outside) (id : List ℕ) (engine : Engine) (s : HasSound engine) where
  delete_event-absent : event_exists id ((delete_event out id engine).0) ≡ false
  unfolding delete_event IsAbsent HasSound
  delete_event-absent =
      if-cases (IsAbsent id) engine.initialized _ _
        (λ ready.
          delete_found-absent out id engine ready (s.unique id) (find_index_entry id engine) refl)
        (λ off. asleep id engine off)

  delete_event-stays :
      (j : List ℕ)
      → event_exists j engine ≡ false
      → event_exists j ((delete_event out id engine).0) ≡ false
  unfolding delete_event IsAbsent HasSound
  delete_event-stays j absent =
      if-cases (IsAbsent j) engine.initialized _ _
        (λ ready.
          delete_found-stays out id engine ready (s.unique id) j (find_index_entry id engine) refl
            absent)
        (λ off. absent)

-- What the loop keeps true of the engine.
record Goes (j : List ℕ) (before after : Engine) : Type 0 where
  sound : HasSound after
  stays : event_exists j before ≡ false → event_exists j after ≡ false

module _ (J : Json) (out : Outside) where
  delete_if-Goes :
      (j event_id : List ℕ) (fine : Bool) (s : Engine × ℕ)
      → HasSound (s.0)
      → Goes j (s.0) ((if fine then delete_counted J out event_id s else s).0)
  unfolding delete_counted
  delete_if-Goes j event_id true s sound = record {
    sound = delete_event-HasSound out event_id (s.0) sound;
    stays = delete_event-stays out event_id (s.0) sound j;
  }
  delete_if-Goes j event_id false s sound = record { sound = sound; stays = λ absent. absent }

  delete_e-Goes :
      (j : List ℕ) (value : Option Text) (s : Engine × ℕ)
      → HasSound (s.0)
      → Goes j (s.0) ((delete_e J out value s).0)
  unfolding delete_e
  delete_e-Goes j none s sound = record { sound = sound; stays = λ absent. absent }
  delete_e-Goes j (some value) s sound =
      delete_if-Goes j ((relay_hex_to_bytes value 64 32).0) ((relay_hex_to_bytes value 64 32).1) s
        sound

  delete_e-absent :
      (id : List ℕ) (value : Text) (s : Engine × ℕ)
      → relay_hex_to_bytes value 64 32 ≡ (id, true)
      → HasSound (s.0)
      → event_exists id ((delete_e J out (some value) s).0) ≡ false
  unfolding delete_e delete_counted
  delete_e-absent id value s hex sound =
      ap (λ r. event_exists id ((if r.1 then delete_counted J out (r.0) s else s).0)) hex
      ∙ delete_event-absent out id (s.0) sound

  module _ (tags : Json.Node J) (id : List ℕ) where
    e_tags_from-Goes :
        (n i : ℕ) (s : Engine × ℕ)
        → HasSound (s.0)
        → Goes id (s.0) ((e_tags_from J out tags n i s).0)
    unfolding e_tags_from
    e_tags_from-Goes zero i s sound = record { sound = sound; stays = λ absent. absent }
    e_tags_from-Goes (suc n) i s sound =
        let value = tag_value J (codes "e") (J.array_item tags i) in
        let one = delete_e-Goes id value s sound in
        let rest = e_tags_from-Goes n (suc i) (delete_e J out value s) one.sound in
        record { sound = rest.sound; stays = λ absent. rest.stays (one.stays absent) }

    e_tags_from-absent :
        (n i k : ℕ) (value : Text) (s : Engine × ℕ)
        → i ≤ k
        → k < i + n
        → tag_value J (codes "e") (J.array_item tags k) ≡ some value
        → relay_hex_to_bytes value 64 32 ≡ (id, true)
        → HasSound (s.0)
        → event_exists id ((e_tags_from J out tags n i s).0) ≡ false
    unfolding e_tags_from
    e_tags_from-absent zero i k value s from to named hex sound = absurd (omega arith)
    e_tags_from-absent (suc n) i k value s from to named hex sound =
        let read = tag_value J (codes "e") (J.array_item tags i) in
        let one = delete_e-Goes id read s sound in
        elim (Bool-cases (i == k)) [
          | inl here ↦
              let named_here : read ≡ some value =
                ap (λ m. tag_value J (codes "e") (J.array_item tags m)) {x = i} {y = k}
                  (ground arith)
                ∙ named in
              (e_tags_from-Goes n (suc i) (delete_e J out read s) one.sound).stays (
                ap (λ v. event_exists id ((delete_e J out v s).0)) named_here
                ∙ delete_e-absent id value s hex sound)
          | inr later ↦
              e_tags_from-absent n (suc i) k value (delete_e J out read s)
                (ground (arith, from, later)) (omega arith) named hex one.sound
        ]

-- On an engine that any calls have led to: where the deletion's tags are an array and one of them
-- is an e tag whose value reads as an id, no event with that id exists after delete_by_e_tags,
-- whoever published it; nothing about the key of the deleter is asked.
pub delete_by_e_tags-absent :
    (J : Json) (out : Outside) (json : Text) (engine : Engine) (tags : Json.Node J) (k : ℕ)
    (value : Text) (id : List ℕ)
    → IsReached engine
    → tags_of J json ≡ some tags
    → k < J.array_size tags
    → tag_value J (codes "e") (J.array_item tags k) ≡ some value
    → relay_hex_to_bytes value 64 32 ≡ (id, true)
    → event_exists id ((delete_by_e_tags J out json engine).0) ≡ false
unfolding delete_by_e_tags
delete_by_e_tags-absent J out json engine tags k value id r there lt named hex =
    ap
      (λ o. event_exists id (
        (elim o as (λ x. Engine × ℕ) [
          | none ↦ (engine, 0)
          | some t ↦ e_tags_from J out t (J.array_size t) 0 (engine, 0)
        ]).0))
      there
    ∙ e_tags_from-absent J out tags id (J.array_size tags) 0 k value (engine, 0) (omega arith)
        (omega (arith, lt)) named hex (IsReached-HasSound engine r)
