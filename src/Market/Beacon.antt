-- ===== src/Market/Beacon.antt =====
-- components/tollgate_core/src/tollgate_core_beacon.c: the announcement of a gate's own price.
use tollgate_esp.Prelude.{
  ℕ, ◌-◌, ◌%◌, Bool, true, false, Option, none, some, List, [], ◌∷◌, ◌++◌, if◌then◌else◌, replicate,
  take, length, Text, text_eq, codes,
}
use tollgate_esp.Prelude.Int.{ℤ, pos, negsuc}
use tollgate_esp.Market.{PricePayload, VendorIe}

-- tollgate_beacon_config_t.
pub record BeaconConfig : Type 0 where
  pub mint_url : Text
  pub metric : Text
  pub price_per_step : ℤ
  pub step_size_ms : ℤ
  pub step_size_bytes : ℤ
  pub geohash : Text
  pub npub_hex : Option Text
  pub identity_initialized : Bool

-- tollgate_price_ie_t.
pub record PriceIe : Type 0 where
  pub element_id : ℕ
  pub length_field : ℕ
  pub vendor_oui : List ℕ
  pub vendor_oui_type : ℕ
  pub payload : PricePayload

-- The conversion of an int to an unsigned type of m values.
unfoldable pub to_unsigned : ℕ → ℤ → ℕ
to_unsigned m (pos n) = n % m
to_unsigned m (negsuc n) = m - 1 - n % m

pub is_bytes : BeaconConfig → Bool
is_bytes cfg = text_eq cfg.metric (codes "bytes")

unfoldable pub padded : ℕ → Text → List ℕ
padded n s = take n s ++ replicate (n - length (take n s)) 0

-- mbedtls_sha256 is the code's only call outside.
module _ (sha256 : Text → List ℕ) where
  -- tollgate_core_beacon_hash_mint.
  hash_mint : Text → List ℕ
  hash_mint mint_url = take 4 (sha256 mint_url)

  -- tollgate_core_beacon_hash_npub.
  hash_npub : Text → List ℕ
  hash_npub npub_hex = take 4 (sha256 npub_hex)

  own_hash : Bool → Option Text → List ℕ
  unfolding hash_npub
  own_hash true (some npub) = hash_npub npub
  own_hash true none = replicate 4 0
  own_hash false npub = replicate 4 0

  -- tollgate_core_beacon_build_ie.
  unfoldable pub build_ie : BeaconConfig → PriceIe
  unfolding hash_mint own_hash is_bytes padded to_unsigned
  build_ie cfg = record {
    element_id = 0xDD;
    length_field = 30;
    vendor_oui = 0xC0 ∷ 0xFF ∷ 0xEE ∷ [];
    vendor_oui_type = 1;
    payload = record {
      version = 1;
      metric = if is_bytes cfg then 1 else 0;
      price_per_step = to_unsigned 65536 cfg.price_per_step;
      step_size =
          if is_bytes cfg
          then to_unsigned 4294967296 cfg.step_size_bytes
          else to_unsigned 4294967296 cfg.step_size_ms;
      mint_hash = hash_mint cfg.mint_url;
      geohash_len = length (take 9 cfg.geohash);
      geohash = padded 9 cfg.geohash;
      npub_hash = own_hash cfg.identity_initialized cfg.npub_hex;
    };
  }

-- The element as the Wi-Fi driver of another gate hands it on: its length counts the OUI and its
-- type.
abbrev pub received : PriceIe → VendorIe
received ie = record {
  vendor_oui = ie.vendor_oui;
  vendor_oui_type = ie.vendor_oui_type;
  payload = ie.payload;
  payload_len = ie.length_field - 4;
}
