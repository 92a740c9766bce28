-- ===== src/Relay/Validator.antt =====
-- components/wisp_relay/relay_validator.c: the id and the signature of an event.
use tollgate_esp.Prelude.{
  ℕ, Bool, false, not, Option, none, some, List, ◌==◌, if◌then◌else◌, length, Text, codes, text_eq,
  ◌>>=◌,
}
use tollgate_esp.Relay.Outside.{Json, Crypto}
use tollgate_esp.Relay.Scan.{relay_hex_to_bytes}

-- A read through a NULL pointer ends the run: such a result is the outer `none`.
module _ (J : Json) (C : Crypto) where
  -- serialize_event_for_id; the inner `none` is NULL.
  unfoldable pub serialize_event_for_id : Text → Option (Option Text)
  serialize_event_for_id json = elim (J.parse json) [
    | none ↦ some none
    | some obj ↦ J.get_object_item obj (codes "pubkey") >>= λ pubkey_item.
        J.valuestring pubkey_item >>= λ pubkey.
        J.get_object_item obj (codes "created_at") >>= λ created_item.
        J.get_object_item obj (codes "kind") >>= λ kind_item.
        J.get_object_item obj (codes "content") >>= λ content_item. some (
          some (
            J.print_serial pubkey (J.valuedouble created_item) (J.valueint kind_item)
              (J.get_object_item obj (codes "tags")) (J.valuestring content_item)))
  ]

  -- verify_event_id.
  unfoldable pub verify_event_id : Text → List ℕ → Option Bool
  unfolding serialize_event_for_id
  verify_event_id json expected_id = serialize_event_for_id json >>= λ serialized. elim serialized [
    | none ↦ some false
    | some s ↦ some (text_eq (C.sha256 s) expected_id)
  ]

  -- strlen(s) != n is an early return of false.
  unfoldable pub of_length : Option Text → ℕ → (Text → Option Bool) → Option Bool
  of_length none n continue = none
  of_length (some s) n continue = if length s == n then continue s else some false

  unfoldable pub item : Json.Node J → Text → (Json.Node J → Option Bool) → Option Bool
  item obj name continue = elim (J.get_object_item obj name) [
    | none ↦ some false
    | some node ↦ continue node
  ]

  -- The three conversions from hexadecimal, and the two checks that follow them.
  unfoldable pub verify_fields : Text → Text → Text → Text → Option Bool
  unfolding verify_event_id
  verify_fields json id_hex pk_hex sig_hex =
      let (event_id, id_ok) = relay_hex_to_bytes id_hex 64 32 in
      let (pubkey, pk_ok) = relay_hex_to_bytes pk_hex 64 32 in
      let (sig, sig_ok) = relay_hex_to_bytes sig_hex 128 64 in
      if not id_ok
      then some false
      else if not pk_ok
      then some false
      else if not sig_ok
      then some false
      else verify_event_id json event_id >>= λ same.
          some (if same then C.schnorr_verify pubkey event_id sig else false)

  -- relay_validator_verify_event.
  unfoldable pub verify_event : Text → Option Bool
  unfolding of_length item verify_fields
  verify_event json = elim (J.parse json) [
    | none ↦ some false
    | some obj ↦ item obj (codes "id") λ id_item. item obj (codes "pubkey") λ pk_item.
        item obj (codes "sig") λ sig_item. of_length (J.valuestring id_item) 64 λ id_hex.
          of_length (J.valuestring pk_item) 64 λ pk_hex.
            of_length (J.valuestring sig_item) 128
              λ sig_hex. verify_fields json id_hex pk_hex sig_hex
  ]
