-- ===== src/Relay/Outside.antt =====
-- What the relay calls and the repository does not hold: cJSON, SHA-256 and secp256k1.
use tollgate_esp.Prelude.{ℕ, Bool, Option, List, Text}
use tollgate_esp.Prelude.Int.{ℤ}

-- cJSON on a parsed tree. `valuestring` and `valueint` are the members as cJSON_Parse fills them,
-- `none` for NULL; `to_uint64` and `to_int64` are the casts of a valuedouble. `print_serial` is
-- what cJSON_PrintUnformatted gives for the array of 0 and these items, without those that are NULL.
pub record Json : Type 1 where
  pub Node : Type 0
  pub Double : Type 0
  pub parse : Text → Option Node
  pub get_object_item : Node → Text → Option Node
  pub is_array : Node → Bool
  pub is_string : Node → Bool
  pub array_size : Node → ℕ
  pub array_item : Node → ℕ → Option Node
  pub valuestring : Node → Option Text
  pub valueint : Node → ℤ
  pub valuedouble : Node → Double
  pub to_uint64 : Double → ℕ
  pub to_int64 : Double → ℤ
  pub print : Node → Text
  pub print_serial : Text → Double → ℤ → Option Node → Option Text → Text

-- mbedtls_sha256; and secp256k1_xonly_pubkey_parse with secp256k1_schnorrsig_verify, by the bytes of
-- the key, the message and the signature.
pub record Crypto : Type 0 where
  pub sha256 : Text → List ℕ
  pub schnorr_verify : List ℕ → List ℕ → List ℕ → Bool
