-- ===== src/Payment/Outside.antt =====
-- What the payment code calls and the repository does not hold: cJSON, mbedTLS, and the mint at the
-- other end of an HTTP request.
use tollgate_esp.Prelude.{ℕ, Bool, Option, List, Text}

-- The calls of cJSON that the code makes on a parsed tree. `number` is (uint64_t)valuedouble where
-- cJSON_IsNumber holds, and `string` is valuestring where cJSON_IsString holds.
pub record Cjson : Type 1 where
  pub Node : Type 0
  pub parse : Text → Option Node
  pub get_object_item : Node → Text → Option Node
  pub is_array : Node → Bool
  pub array_size : Node → ℕ
  pub array_item : Node → ℕ → Option Node
  pub number : Node → Option ℕ
  pub string : Node → Option Text

-- `base64_decode dst_len src` is mbedtls_base64_decode, `none` for a result that is not 0;
-- `sha256` is the 32 bytes of mbedtls_sha256; `checkstate url ys` is the body of the answer to
-- POST {"Ys": ys}, where it has status 200 and at least one byte.
pub record Services : Type 0 where
  pub base64_decode : ℕ → Text → Option Text
  pub sha256 : Text → List ℕ
  pub checkstate : Text → List Text → Option Text
