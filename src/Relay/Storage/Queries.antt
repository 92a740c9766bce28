-- ===== src/Relay/Storage/Queries.antt =====
-- components/wisp_relay/storage_engine.c: the backward loop of storage_query_events_json against the
-- list of all matching events, the newest first.
use tollgate_esp.Prelude.{
  ℕ, zero, suc, ◌≤◌, ◌≡◌, refl, sym, ap, ◌∙◌, true, Option, none, some, List, [], ◌∷◌, ◌++◌,
  get_elem?, take, length, arith, if_yes, get_elem?-exists, append_nil, append_assoc, take_snoc,
  take-length, Text,
}
use tollgate_esp.Prelude.Int.{ℤ, pos, negsuc}
use tollgate_esp.Relay.Storage.State.{Engine, IndexEntry, Outside, Files}
use tollgate_esp.Relay.Storage.Calls.{
  Query, hit, hit_at, query_from, query_events_json, clamp_limit, query_of,
}

unfoldable pub to_list : Option Text → List Text
to_list none = []
to_list (some body) = body ∷ []

-- All the events that match a query, the newest first.
unfoldable pub results : ℕ → Query → Files → List IndexEntry → List Text
unfolding to_list
results now q fs [] = []
results now q fs (e ∷ es) = results now q fs es ++ to_list (hit now q fs e)

module _ (now : ℕ) (q : Query) (fs : Files) where
  results-append :
      (es ds : List IndexEntry)
      → results now q fs (es ++ ds) ≡ results now q fs ds ++ results now q fs es
  unfolding results
  results-append [] ds = sym (append_nil (results now q fs ds))
  results-append (e ∷ es) ds =
      ap (λ bs. bs ++ to_list (hit now q fs e)) (results-append es ds)
      ∙ append_assoc (results now q fs ds) (results now q fs es) (to_list (hit now q fs e))

  pub results-snoc :
      (es : List IndexEntry) (e : IndexEntry)
      → results now q fs (es ++ e ∷ []) ≡ to_list (hit now q fs e) ++ results now q fs es
  unfolding results
  results-snoc es e = results-append es (e ∷ [])

  module _ (index : List IndexEntry) where
    query_round :
        (i room : ℕ) (found : Option Text)
        → hit_at now q fs (get_elem? index i) ≡ found
        → ((left : ℕ)
            → query_from now q fs index i left ≡ take left (results now q fs (take i index)))
        → query_from now q fs index (suc i) (suc room)
          ≡ take (suc room) (to_list found ++ results now q fs (take i index))
    unfolding query_from to_list
    query_round i room none h before = rw (query_from, h) (before (suc room))
    query_round i room (some body) h before =
        rw (query_from, h) (ap (λ bs. body ∷ bs) (before room))

    hit_there :
        (i : ℕ) (e : IndexEntry)
        → get_elem? index i ≡ some e
        → hit_at now q fs (get_elem? index i) ≡ hit now q fs e
    unfolding hit_at hit
    hit_there i e at = ap (hit_at now q fs) at

    query_from-take :
        (n room : ℕ)
        → n ≤ length index
        → query_from now q fs index n room ≡ take room (results now q fs (take n index))
    unfolding query_from results
    query_from-take zero zero le = refl
    query_from-take zero (suc room) le = refl
    query_from-take (suc i) zero le = refl
    query_from-take (suc i) (suc room) le =
        let (e, at) = get_elem?-exists index i le in
        query_round i room (hit now q fs e) (hit_there i e at)
          (λ left. query_from-take i left (omega (arith, le)))
        ∙ ap (take (suc room))
            (sym (ap (results now q fs) (take_snoc index i e at) ∙ results-snoc (take i index) e))

  pub query_from-results :
      (index : List IndexEntry) (room : ℕ)
      → query_from now q fs index (length index) room ≡ take room (results now q fs index)
  query_from-results index room =
      query_from-take index (length index) room (omega arith)
      ∙ ap (λ es. take room (results now q fs es)) (take-length index)

clamp_limit-bounds : (limit : ℤ) → (1 ≤ clamp_limit limit) × (clamp_limit limit ≤ 500)
unfolding clamp_limit
clamp_limit-bounds (pos n) = ground arith
clamp_limit-bounds (negsuc n) = ground arith

-- On an initialized engine, storage_query_events_json gives the events of the index that match the
-- query and whose file can be read, the newest first, cut at the clamped limit, which is between 1
-- and 500.
pub query_events_json-results :
    (out : Outside) (kind : ℤ) (author_hex : Option Text) (limit : ℤ) (engine : Engine)
    → engine.initialized ≡ true
    → (query_events_json out kind author_hex limit engine
        ≡ some (
            take
              (clamp_limit limit)
              (results out.now (query_of kind author_hex) engine.files engine.index)))
      × (1 ≤ clamp_limit limit)
      × (clamp_limit limit ≤ 500)
unfolding query_events_json
query_events_json-results out kind author_hex limit engine ready =
    let q = query_of kind author_hex in
    (
      if_yes engine.initialized _ none ready
          ∙ ap some (query_from-results out.now q engine.files engine.index (clamp_limit limit)),
      (clamp_limit-bounds limit).0,
      (clamp_limit-bounds limit).1,
    )
