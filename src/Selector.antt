-- ===== src/Selector.antt =====
-- main/relay_selector.c: the public relays, their probes, and the choice of two of them. The mutex
-- is left out, so a call is one step.
use tollgate_esp.Prelude.{
  ℕ, zero, suc, ◌+◌, ◌-◌, ◌*◌, ◌/◌, ◌%◌, ◌^◌, Bool, true, false, not, ◌&&◌, ◌||◌, Option, none,
  some, List, [], ◌∷◌, ◌++◌, ltb, leb, ◌==◌, if◌then◌else◌, take, length, modify, get_elem?,
  find_index, filter, map, Text, codes, text_eq, is_empty,
}
use tollgate_esp.Prelude.Int.{ℤ, pos, negsuc, ◌-ℤ◌, leb_ℤ}
pub mod Best

-- RELAY_SELECTOR_MAX_RELAYS and RELAY_SELECTOR_URL_LEN, and MAX_FAILURES.
abbrev pub max_relays : ℕ
max_relays = 8

abbrev pub max_failures : ℕ
max_failures = 3

-- relay_info_t; the count of failures does not overflow.
pub record RelayInfo : Type 0 where
  pub url : Text
  pub name : Text
  pub latency_ms : ℕ
  pub supports_nip77 : Bool
  pub alive : Bool
  pub consecutive_failures : ℕ
  pub supported_nips : List ℕ

-- relay_selector_t; `relays` are those below count, and -1 is `none`.
pub record Selector : Type 0 where
  pub relays : List RelayInfo
  pub primary_idx : Option ℕ
  pub fallback_idx : Option ℕ
  pub last_full_probe : ℕ

-- relay_selector_init.
selector_init : Selector
selector_init = record { relays = []; primary_idx = none; fallback_idx = none; last_full_probe = 0 }

-- (int) of a uint32_t.
unfoldable pub to_int32 : ℕ → ℤ
to_int32 x = if ltb x (2 ^ 31) then pos x else negsuc (2 ^ 32 - x - 1)

unfoldable pub score : RelayInfo → ℤ
score r = pos (if r.supports_nip77 then 1000 else 0) -ℤ pos (r.consecutive_failures * 100)

-- compare_relays, where the differences fit an int.
unfoldable pub compare_relays : RelayInfo → RelayInfo → ℤ
unfolding score to_int32
compare_relays a b =
    if a.alive && not b.alive
    then negsuc 0
    else if not a.alive && b.alive
    then pos 1
    else (let by_score = score b -ℤ score a in
        if leb_ℤ by_score (pos 0) && leb_ℤ (pos 0) by_score
        then to_int32 a.latency_ms -ℤ to_int32 b.latency_ms
        else by_score)

unfoldable pub comes_first : RelayInfo → RelayInfo → Bool
unfolding compare_relays
comes_first a b = leb_ℤ (compare_relays a b) (pos 0)

-- qsort, as an insertion sort: what it does with relays that compare equal is open in C.
unfoldable pub insert : RelayInfo → List RelayInfo → List RelayInfo
unfolding comes_first
insert r [] = r ∷ []
insert r (s ∷ ss) = if comes_first r s then r ∷ s ∷ ss else s ∷ insert r ss

unfoldable pub sorted : List RelayInfo → List RelayInfo
unfolding insert
sorted [] = []
sorted (r ∷ rs) = insert r (sorted rs)

unfoldable pub is_alive : RelayInfo → Bool
is_alive r = r.alive

unfoldable pub is_at : Text → RelayInfo → Bool
is_at url r = text_eq r.url url

-- The loops that look a sorted relay up by its address; a miss leaves the index.
unfoldable pub index_or : Option ℕ → Text → List RelayInfo → Option ℕ
unfolding is_at
index_or old url relays = elim (find_index (is_at url) relays) [ none ↦ old | some i ↦ some i ]

unfoldable pub choose : List RelayInfo → Selector → Selector
unfolding index_or
choose [] sel = record sel { primary_idx = none; fallback_idx = none }
choose (first ∷ []) sel = record sel {
  primary_idx = index_or sel.primary_idx first.url sel.relays;
  fallback_idx = none;
}
choose (first ∷ (second ∷ rest)) sel = record sel {
  primary_idx = index_or sel.primary_idx first.url sel.relays;
  fallback_idx = index_or sel.fallback_idx second.url sel.relays;
}

-- select_primary_fallback.
unfoldable pub select_primary_fallback : Selector → Selector
unfolding choose sorted is_alive
select_primary_fallback sel = choose (sorted (filter is_alive sel.relays)) sel

-- cJSON on the information document: `number` is valueint.
pub record Json : Type 1 where
  pub Node : Type 0
  pub parse : Text → Option Node
  pub get_object_item : Node → Text → Option Node
  pub is_array : Node → Bool
  pub array_size : Node → ℕ
  pub array_item : Node → ℕ → Option Node
  pub number : Node → ℤ
  pub string : Node → Option Text

-- How the request for the document ends: there is no client, the connection fails, the status is not 200, or a body
-- of at most 4095 bytes comes after some milliseconds.
pub data HttpProbe : Type 0 where
  no_client : HttpProbe
  unreachable : HttpProbe
  bad_status : ℤ → HttpProbe
  answered : Text → ℕ → HttpProbe

is_nip77 : ℤ → Bool
is_nip77 (pos n) = n == 77
is_nip77 (negsuc n) = false

to_uint8 : ℤ → ℕ
to_uint8 (pos n) = n % 256
to_uint8 (negsuc n) = 255 - n % 256

is_positive : ℤ → Bool
is_positive (pos n) = ltb 0 n
is_positive (negsuc n) = false

-- The body of the loop of relay_selector_probe_all after a failure, and of the report.
relay_failed : RelayInfo → RelayInfo
relay_failed r = record r {
  consecutive_failures = r.consecutive_failures + 1;
  alive = if leb max_failures (r.consecutive_failures + 1) then false else r.alive;
}

module _ (J : Json) where
  -- The numbers of n items from i on; an item is there inside the array.
  nips_from : Json.Node J → ℕ → ℕ → List ℤ
  nips_from nips zero i = []
  nips_from nips (suc n) i =
      let rest = nips_from nips n (suc i) in
      elim (J.array_item nips i) [ none ↦ rest | some nip ↦ J.number nip ∷ rest ]

  any_nip77 : List ℤ → Bool
  unfolding is_nip77
  any_nip77 [] = false
  any_nip77 (n ∷ ns) = is_nip77 n || any_nip77 ns

  read_name : Json.Node J → RelayInfo → RelayInfo
  read_name root r = elim (J.get_object_item root (codes "name")) [
    | none ↦ r
    | some node ↦ elim (J.string node) [ none ↦ r | some s ↦ record r { name = take 63 s } ]
  ]

  read_nips : Json.Node J → RelayInfo → RelayInfo
  unfolding nips_from any_nip77 to_uint8
  read_nips root r = elim (J.get_object_item root (codes "supported_nips")) [
    | none ↦ r
    | some nips ↦
        if J.is_array nips
        then (let n = if ltb 32 (J.array_size nips) then 32 else J.array_size nips in
            let numbers = nips_from nips n 0 in
            record r { supported_nips = map to_uint8 numbers; supports_nip77 = any_nip77 numbers })
        else r
  ]

  -- probe_nip11, with whether it returns ESP_OK.
  probe_nip11 : HttpProbe → RelayInfo → RelayInfo × Bool
  unfolding read_name read_nips is_positive
  probe_nip11 no_client r = (r, false)
  probe_nip11 unreachable r = (record r { alive = false }, false)
  probe_nip11 (bad_status status) r = (record r { alive = is_positive status }, false)
  probe_nip11 (answered body ms) r =
      let up = record r { latency_ms = ms % 2 ^ 32; alive = true; consecutive_failures = 0 } in
      elim (J.parse body) [
        | none ↦ (up, true)
        | some root ↦ (read_nips root (read_name root up), true)
      ]

  probe_relay : HttpProbe → RelayInfo → RelayInfo
  unfolding probe_nip11 relay_failed
  probe_relay p r =
      let (after, fine) = probe_nip11 p r in if fine then after else relay_failed after

  probe_each : (Text → HttpProbe) → List RelayInfo → List RelayInfo
  unfolding probe_relay
  probe_each net [] = []
  probe_each net (r ∷ rs) = probe_relay (net r.url) r ∷ probe_each net rs

  -- relay_selector_probe_all, at a time in seconds.
  probe_all : (Text → HttpProbe) → ℕ → Selector → Selector
  unfolding probe_each
  probe_all net seconds sel =
      record (select_primary_fallback record sel { relays = probe_each net sel.relays }) {
        last_full_probe = seconds % 2 ^ 32;
      }

-- relay_selector_get_primary.
unfoldable pub get_primary : Selector → Option RelayInfo
get_primary sel = elim sel.primary_idx [ none ↦ none | some i ↦ get_elem? sel.relays i ]

is_index : Option ℕ → ℕ → Bool
is_index none i = false
is_index (some j) i = i == j

-- The loop of relay_selector_get_fallback over the relays from i on.
fallback_from : ℕ → ℕ → List RelayInfo → Selector → Option RelayInfo
unfolding is_index
fallback_from idx i [] sel = none
fallback_from idx i (r ∷ rs) sel =
    if not (is_index sel.primary_idx i) && not (is_index sel.fallback_idx i) && r.alive
    then elim idx [ zero ↦ some r | suc left ↦ fallback_from left (suc i) rs sel ]
    else fallback_from idx (suc i) rs sel

-- relay_selector_get_fallback, for an index that is not negative.
unfoldable pub get_fallback : ℕ → Selector → Option RelayInfo
unfolding fallback_from
get_fallback zero sel = elim sel.fallback_idx [ none ↦ none | some i ↦ get_elem? sel.relays i ]
get_fallback (suc idx) sel = fallback_from (suc idx) 0 sel.relays sel

report_at : Option ℕ → Selector → Selector
unfolding relay_failed
report_at none sel = sel
report_at (some i) sel =
    let after = record sel { relays = modify sel.relays i relay_failed } in
    elim (get_elem? sel.relays i) [
      | none ↦ after
      | some r ↦
          if leb max_failures (r.consecutive_failures + 1)
          then select_primary_fallback after
          else after
    ]

-- relay_selector_report_disconnect.
unfoldable pub report_disconnect : Text → Selector → Selector
unfolding report_at is_at
report_disconnect url sel = report_at (find_index (is_at url) sel.relays) sel

blank_relay : Text → RelayInfo
blank_relay url = record {
  url = take 127 url;
  name = [];
  latency_ms = 0;
  supports_nip77 = false;
  alive = true;
  consecutive_failures = 0;
  supported_nips = [];
}

-- The loop of relay_selector_seed_from_config, with room for so many more.
seed_from : ℕ → List Text → List RelayInfo
unfolding blank_relay
seed_from zero urls = []
seed_from (suc room) [] = []
seed_from (suc room) (url ∷ urls) = elim (is_empty url) [
  | true ↦ seed_from (suc room) urls
  | false ↦ blank_relay url ∷ seed_from room urls
]

-- relay_selector_seed_from_config, on a selector that relay_selector_init has cleared.
seed_from_config : List Text → Selector → Selector
unfolding seed_from
seed_from_config urls sel = record sel { relays = seed_from max_relays urls }
