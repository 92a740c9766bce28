-- ===== src/Tests/Relayed.antt =====
-- The theorems on the relay's handlers at concrete inputs.
use tollgate_esp.Prelude.{
  ℕ, zero, suc, ◌≡◌, refl, ap, subst, ◌⊎◌, get_elem?, List, true, false, ◌||◌, Option, none, some,
  [], ◌∷◌, ◌==◌, ltb, if◌then◌else◌, Text, codes, text_eq, replicate, arith,
}
use tollgate_esp.Prelude.Int.{pos, ◌+ℤ◌}
use tollgate_esp.Relay.Outside.{Json, Crypto}
use tollgate_esp.Relay.Scan.{relay_hex_to_bytes, hex_bytes, scan_byte}
use tollgate_esp.Relay.Validator.{verify_event, of_length, item}
use tollgate_esp.Relay.Local.{local_relay_init}
use tollgate_esp.Relay.Storage.Calls.{event_exists}
use tollgate_esp.Relay.Storage.Upkeep.{nvs_missing}
use tollgate_esp.Relay.Deletion.{delete_by_e_tags, tag_value, tags_of, string_of}
use tollgate_esp.Relay.Deletion.Tags.{delete_by_e_tags-absent}
use tollgate_esp.Relay.Handlers.{Handled, Moment, RelayCtx, handle_event, rate_check, too_far}
use tollgate_esp.Relay.Handlers.Verified.{HasNullId, IsUnchanged, handle_event-unverified}
use tollgate_esp.Relay.Handlers.Future.{IsLate, Message, take_events, take_events-late}
use tollgate_esp.Tests.Stored.{one_event, one_event-reached, outside}

-- A tree of nine nodes: the event, its fields, and the tag ["e", "0a0b..."].
abbrev field_of : Text → Option ℕ
field_of name =
    if text_eq name (codes "id")
    then some 1
    else if text_eq name (codes "pubkey")
    then some 2
    else if text_eq name (codes "kind")
    then some 3
    else if text_eq name (codes "created_at")
    then some 4
    else if text_eq name (codes "tags")
    then some 5
    else if text_eq name (codes "sig")
    then some 2
    else none

abbrev item_of : ℕ → ℕ → Option ℕ
item_of node i = if node == 5 then some 6 else if i == 0 then some 7 else some 8

abbrev string_at : ℕ → Option Text
string_at node =
    if node == 7 then some (codes "e") else if node == 8 then some (replicate 64 b'a') else some []

abbrev tree : Json
tree = record {
  Node = ℕ;
  Double = ℕ;
  parse = λ s. some 0;
  get_object_item = λ node name. field_of name;
  is_array = λ node. node == 5 || node == 6;
  is_string = λ node. ltb 6 node;
  array_size = λ node. if node == 5 then 1 else 2;
  array_item = item_of;
  valuestring = string_at;
  valueint = λ node. pos 1;
  valuedouble = λ node. 1700000000;
  to_uint64 = λ d. d;
  to_int64 = λ d. pos d;
  print = λ node. [];
  print_serial = λ pubkey created kind tags content. [];
}

-- The same tree with nothing but numbers, dated at the start.
abbrev numbers : Json
numbers = record tree { valuestring = λ node. none; valuedouble = λ node. 0 }

abbrev crypto : Crypto
crypto = record { sha256 = λ s. replicate 32 0; schnorr_verify = λ key message sig. true }

abbrev a_day_up : Moment
a_day_up = record { timer_seconds = 86400; tick_seconds = 86400; outside = outside }

abbrev relay : RelayCtx
relay =
    record (local_relay_init nvs_missing true (λ p. none)
      record { saved_count = none; saved_next = none; blobs = λ k. none }) { rate_limiter = none }

limit_set : relay.max_future_sec ≡ pos 600
unfolding local_relay_init
limit_set = refl

abbrev messages : List Message
messages = (a_day_up, 7, []) ∷ (a_day_up, 8, []) ∷ []

message_of : Option Message → Message
message_of none = (a_day_up, 0, [])
message_of (some e) = e

messages-IsLate : (i : ℕ) (e : Message) → get_elem? messages i ≡ some e → IsLate tree crypto e
unfolding message_of
messages-IsLate zero e here =
    subst (IsLate tree crypto) (ap message_of here) (λ obj c p d. (omega arith, omega arith))
messages-IsLate (suc zero) e here =
    subst (IsLate tree crypto) (ap message_of here) (λ obj c p d. (omega arith, omega arith))
messages-IsLate (suc (suc i)) e here = absurd (ground (arith, here))

take_events-late_example :
    (after : RelayCtx) × (take_events tree crypto messages relay ≡ some after)
    × (after.storage ≡ relay.storage)
    × (after.sub_manager ≡ relay.sub_manager)
take_events-late_example = take_events-late tree crypto messages relay limit_set messages-IsLate

not_valid : verify_event tree crypto [] ≡ some false
unfolding verify_event item of_length text_eq
not_valid = refl

handle_event-unverified_example :
    ((h : Handled) × (handle_event tree crypto a_day_up 7 [] relay ≡ some h)
      × IsUnchanged 7 relay h)
    ⊎ ((handle_event tree crypto a_day_up 7 [] relay ≡ none) × HasNullId tree [])
handle_event-unverified_example = handle_event-unverified tree crypto a_day_up 7 [] relay not_valid

-- An event whose id is a number.
null_id_crash : handle_event numbers crypto a_day_up 7 [] relay ≡ none
unfolding handle_event rate_check local_relay_init text_eq too_far ◌+ℤ◌
null_id_crash = refl

has_tags : tags_of tree [] ≡ some 5
unfolding tags_of text_eq
has_tags = refl

tag_named : tag_value tree (codes "e") (some 6) ≡ some (replicate 64 b'a')
unfolding tag_value string_of text_eq
tag_named = refl

hex : relay_hex_to_bytes (replicate 64 b'a') 64 32 ≡ (replicate 32 170, true)
unfolding relay_hex_to_bytes hex_bytes scan_byte
hex = refl

delete_by_e_tags-absent_example :
    event_exists (replicate 32 170) ((delete_by_e_tags tree outside [] one_event).0) ≡ false
delete_by_e_tags-absent_example =
    delete_by_e_tags-absent tree outside [] one_event 5 0 (replicate 64 b'a') (replicate 32 170)
      one_event-reached has_tags (omega arith) tag_named hex
