-- ===== src/Relay/Subs.antt =====
-- components/wisp_relay/sub_manager.c: the subscriptions of the relay's connections.
use tollgate_esp.Prelude.{
  ℕ, zero, suc, ◌+◌, ◌-◌, ◌%◌, ◌^◌, Bool, true, false, not, ◌&&◌, ◌||◌, Option, none, some, List,
  [], ◌∷◌, leb, ltb, ◌==◌, if◌then◌else◌, modify, replicate, find_index, find_first, count_if,
  get_elem?, take, length, map, Text, text_eq,
}
use tollgate_esp.Prelude.Int.{ℤ, pos, negsuc, to_int64, leb_ℤ}
pub mod Sound
pub mod Requests
pub mod LongIds

-- SUB_MAX_TOTAL, SUB_MAX_PER_CONN, SUB_MAX_FILTERS, SUB_MAX_ID_LEN, and the one bound of the five
-- lists of a filter.
abbrev pub max_total : ℕ
max_total = 64

abbrev pub max_per_conn : ℕ
max_per_conn = 8

abbrev pub max_filters : ℕ
max_filters = 4

abbrev pub max_id_len : ℕ
max_id_len = 64

abbrev pub max_filter_items : ℕ
max_filter_items = 20

-- sub_error_t, of which the code returns these.
pub data SubError : Type 0 where
  sub_ok : SubError
  too_many_filters : SubError
  memory : SubError
  not_found : SubError

-- sub_filter_t; each list stands for an array with its count.
pub record SubFilter : Type 0 where
  pub ids : List Text
  pub authors : List Text
  pub kinds : List ℤ
  pub e_tags : List Text
  pub p_tags : List Text
  pub since : ℤ
  pub until : ℤ
  pub limit : ℤ

-- subscription_t; `filters` are those below filter_count.
pub record Subscription : Type 0 where
  pub sub_id : Text
  pub conn_fd : ℕ
  pub filters : List SubFilter
  pub events_sent : ℕ
  pub active : Bool

-- sub_manager_t; active_count is a uint16_t.
pub record SubManager : Type 0 where
  pub subs : List Subscription
  pub active_count : ℕ

-- filter_copy, where strdup finds its memory.
filter_copy : SubFilter → SubFilter
filter_copy src = record {
  ids = take max_filter_items src.ids;
  authors = take max_filter_items src.authors;
  kinds = take max_filter_items src.kinds;
  e_tags = take max_filter_items src.e_tags;
  p_tags = take max_filter_items src.p_tags;
  since = src.since;
  until = src.until;
  limit = src.limit;
}

-- A subscription after memset, as clear_subscription leaves it.
abbrev pub cleared : Subscription
cleared = record { sub_id = []; conn_fd = 0; filters = []; events_sent = 0; active = false }

-- sub_manager_init, where the mutex is made.
pub init : SubManager
init = record { subs = replicate max_total cleared; active_count = 0 }

-- The tests of find_sub, find_free_slot and the counting loops.
is_named : ℕ → Text → Subscription → Bool
is_named fd id s = s.active && s.conn_fd == fd && text_eq s.sub_id id

is_free : Subscription → Bool
is_free s = not s.active

pub is_of : ℕ → Subscription → Bool
is_of fd s = s.active && s.conn_fd == fd

pub is_active : Subscription → Bool
is_active s = s.active

-- hex_prefix_match, which compares the first strlen(prefix) bytes.
hex_prefix_match : Text → Text → Bool
hex_prefix_match prefix full =
    if length prefix == 0
    then true
    else if ltb (length full) (length prefix)
    then false
    else text_eq prefix (take (length prefix) full)

eq_ℤ : ℤ → ℤ → Bool
eq_ℤ (pos m) (pos n) = m == n
eq_ℤ (negsuc m) (negsuc n) = m == n
eq_ℤ (pos m) (negsuc n) = false
eq_ℤ (negsuc m) (pos n) = false

any_of {ℓ} : {A : Type ℓ} → (A → Bool) → List A → Bool
any_of p [] = false
any_of p (x ∷ xs) = if p x then true else any_of p xs

is_listed {ℓ} : {A : Type ℓ} → (A → Bool) → List A → Bool
unfolding any_of
is_listed p [] = true
is_listed p (x ∷ xs) = any_of p (x ∷ xs)

-- filter_matches_event; created_at is a uint64_t that is cast to int64_t.
filter_matches_event : SubFilter → ℤ → Text → ℕ → Bool
unfolding is_listed eq_ℤ hex_prefix_match
filter_matches_event f event_kind pubkey_hex created_at =
    let at = to_int64 created_at in
    if not (is_listed (λ k. eq_ℤ k event_kind) f.kinds)
    then false
    else if not (is_listed (λ a. hex_prefix_match a pubkey_hex) f.authors)
    then false
    else if not (leb_ℤ f.since (pos 0)) && not (leb_ℤ f.since at)
    then false
    else if not (leb_ℤ f.until (pos 0)) && not (leb_ℤ at f.until)
    then false
    else true

-- The test of the loop of sub_manager_match_json.
pub is_match : ℤ → Text → ℕ → Subscription → Bool
unfolding any_of
is_match event_kind pubkey_hex created_at s =
    s.active && any_of (λ f. filter_matches_event f event_kind pubkey_hex created_at) s.filters

collect : (Subscription → Bool) → List Subscription → List (ℕ × Text)
collect p [] = []
collect p (s ∷ ss) = let rest = collect p ss in if p s then (s.conn_fd, s.sub_id) ∷ rest else rest

-- sub_manager_match_json: the entries written to the result.
pub match_json : ℤ → Text → ℕ → SubManager → List (ℕ × Text)
unfolding collect is_match
match_json event_kind pubkey_hex created_at mgr =
    collect (is_match event_kind pubkey_hex created_at) mgr.subs

-- The fields set in an existing subscription, and in a free slot; strncpy cuts the id.
replaced : List SubFilter → Subscription → Subscription
unfolding filter_copy
replaced fs s = record s { filters = map filter_copy (take max_filters fs); events_sent = 0 }

subscribed : ℕ → Text → List SubFilter → Subscription → Subscription
unfolding filter_copy
subscribed fd id fs s = record {
  sub_id = take max_id_len id;
  conn_fd = fd;
  filters = map filter_copy (take max_filters fs);
  events_sent = 0;
  active = true;
}

add_free : ℕ → Text → List SubFilter → Option ℕ → SubManager → SubManager × SubError
unfolding subscribed
add_free fd id fs none mgr = (mgr, memory)
add_free fd id fs (some i) mgr = (
  record {
    subs = modify mgr.subs i (subscribed fd id fs);
    active_count = (mgr.active_count + 1) % 65536;
  },
  sub_ok,
)

-- conn_count is a uint8_t, and at most 64 here.
add_found : ℕ → Text → List SubFilter → Option ℕ → SubManager → SubManager × SubError
unfolding replaced add_free is_free is_of
add_found fd id fs (some i) mgr = (record mgr { subs = modify mgr.subs i (replaced fs) }, sub_ok)
add_found fd id fs none mgr =
    if leb max_per_conn (count_if (is_of fd) mgr.subs % 256)
    then (mgr, too_many_filters)
    else add_free fd id fs (find_index is_free mgr.subs) mgr

-- sub_manager_add.
pub add : ℕ → Text → List SubFilter → SubManager → SubManager × SubError
unfolding add_found is_named
add fd id fs mgr = add_found fd id fs (find_index (is_named fd id) mgr.subs) mgr

-- clear_subscription and the decrement of the uint16_t.
clear_at : ℕ → SubManager → SubManager
clear_at i mgr = record {
  subs = modify mgr.subs i (λ s. cleared);
  active_count = (mgr.active_count + 65535) % 65536;
}

remove_found : Option ℕ → SubManager → SubManager × SubError
unfolding clear_at
remove_found none mgr = (mgr, not_found)
remove_found (some i) mgr = (clear_at i mgr, sub_ok)

-- sub_manager_remove.
pub remove : ℕ → Text → SubManager → SubManager × SubError
unfolding remove_found is_named
remove fd id mgr = remove_found (find_index (is_named fd id) mgr.subs) mgr

remove_at : ℕ → ℕ → Option Subscription → SubManager → SubManager
unfolding clear_at is_of
remove_at fd i none mgr = mgr
remove_at fd i (some s) mgr = if is_of fd s then clear_at i mgr else mgr

-- The loop of sub_manager_remove_all over n slots from i.
remove_from : ℕ → ℕ → ℕ → SubManager → SubManager
unfolding remove_at
remove_from fd zero i mgr = mgr
remove_from fd (suc n) i mgr = remove_from fd n (suc i) (remove_at fd i (get_elem? mgr.subs i) mgr)

-- sub_manager_remove_all.
pub remove_all : ℕ → SubManager → SubManager
unfolding remove_from
remove_all fd mgr = remove_from fd max_total 0 mgr

-- sub_manager_count.
count : ℕ → SubManager → ℕ
unfolding is_of
count fd mgr = count_if (is_of fd) mgr.subs % 256
