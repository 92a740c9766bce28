-- ===== src/Market.antt =====
-- components/tollgate_core/src/tollgate_core_market.c: the offers of other TollGates, as their
-- beacons announce them.
use tollgate_esp.Prelude.{
  ℕ, zero, suc, ◌+◌, ◌-◌, ◌*◌, ◌/◌, ◌%◌, Bool, true, false, not, ◌&&◌, ◌||◌, Option, none, some,
  List, [], ◌∷◌, ◌++◌, leb, ltb, ◌==◌, if◌then◌else◌, modify, replicate, find_index, take, Text,
  text_eq, is_empty,
}
use tollgate_esp.Prelude.Int.{ℤ, pos, negsuc, ltb_ℤ}
use tollgate_esp.Payment.Token.{c_str}
pub mod Sound
pub mod Cheapest
pub mod Beacon
pub mod Announcement

-- TG_MARKET_MAX_ENTRIES.
abbrev pub max_entries : ℕ
max_entries = 10

-- tollgate_market_entry_t; the strings without their NUL.
pub record MarketEntry : Type 0 where
  pub bssid : List ℕ
  pub ssid : Text
  pub rssi : ℤ
  pub price_per_step : ℕ
  pub step_size : ℕ
  pub metric : ℕ
  pub mint_hash : List ℕ
  pub npub_hash : List ℕ
  pub geohash : Text
  pub discovered_ms : ℤ
  pub valid : Bool

-- tollgate_market_t; the rest of the struct is written by no code here.
pub record Market : Type 0 where
  pub entries : List MarketEntry
  pub count : ℕ

-- tollgate_price_payload_t (tollgate_core_beacon.h).
pub record PricePayload : Type 0 where
  pub version : ℕ
  pub metric : ℕ
  pub price_per_step : ℕ
  pub step_size : ℕ
  pub mint_hash : List ℕ
  pub geohash_len : ℕ
  pub geohash : List ℕ
  pub npub_hash : List ℕ

-- tollgate_vendor_ie_t, with what its payload holds as the struct that the code reads it as.
pub record VendorIe : Type 0 where
  pub vendor_oui : List ℕ
  pub vendor_oui_type : ℕ
  pub payload : PricePayload
  pub payload_len : ℕ

abbrev pub blank_entry : MarketEntry
blank_entry = record {
  bssid = replicate 6 0;
  ssid = [];
  rssi = pos 0;
  price_per_step = 0;
  step_size = 0;
  metric = 0;
  mint_hash = replicate 4 0;
  npub_hash = replicate 4 0;
  geohash = [];
  discovered_ms = pos 0;
  valid = false;
}

-- tollgate_core_market_init.
pub init : Market
init = record { entries = replicate max_entries blank_entry; count = 0 }

-- The test of find_entry_by_bssid.
pub is_bssid : List ℕ → MarketEntry → Bool
is_bssid bssid e = e.valid && text_eq e.bssid bssid

pub is_valid : MarketEntry → Bool
is_valid e = e.valid

is_invalid : MarketEntry → Bool
is_invalid e = not e.valid

-- The second loop of find_free_slot, from entry i, with the oldest so far and its time.
oldest_from : List MarketEntry → ℕ → ℕ → ℤ → ℕ
oldest_from [] i oldest oldest_time = oldest
oldest_from (e ∷ es) i oldest oldest_time =
    if ltb_ℤ e.discovered_ms oldest_time
    then oldest_from es (suc i) i e.discovered_ms
    else oldest_from es (suc i) oldest oldest_time

pub oldest_of : List MarketEntry → ℕ
unfolding oldest_from
oldest_of [] = 0
oldest_of (e ∷ es) = oldest_from es 1 0 e.discovered_ms

free_or_oldest : Option ℕ → List MarketEntry → ℕ
unfolding oldest_of
free_or_oldest (some i) es = i
free_or_oldest none es = oldest_of es

-- find_free_slot.
find_free_slot : Market → ℕ
unfolding free_or_oldest is_invalid
find_free_slot m = free_or_oldest (find_index is_invalid m.entries) m.entries

-- (int8_t) of an int.
unfoldable pub to_int8 : ℤ → ℤ
to_int8 z = let low = byte_of z in if ltb low 128 then pos low else negsuc (255 - low)
  where
    byte_of : ℤ → ℕ
    byte_of (pos n) = n % 256
    byte_of (negsuc n) = 255 - n % 256

-- The fields that tollgate_core_market_parse_ie sets.
announced : List ℕ → PricePayload → ℤ → ℤ → MarketEntry → MarketEntry
announced sa p rssi now e = record {
  bssid = sa;
  ssid = [];
  rssi = to_int8 rssi;
  price_per_step = p.price_per_step;
  step_size = p.step_size;
  metric = p.metric;
  mint_hash = p.mint_hash;
  npub_hash = p.npub_hash;
  geohash = c_str (take (if ltb 9 p.geohash_len then 9 else p.geohash_len) p.geohash);
  discovered_ms = now;
  valid = true;
}

-- The checks at its head; `none` is a self_npub_hash that is NULL.
unfoldable pub is_ours : Option (List ℕ) → PricePayload → Bool
is_ours none p = false
is_ours (some hash) p = text_eq p.npub_hash hash

is_announcement : VendorIe → Option (List ℕ) → Bool
unfolding is_ours
is_announcement ie self_npub_hash =
    not (ltb ie.payload_len 26)
    && text_eq ie.vendor_oui (0xC0 ∷ 0xFF ∷ 0xEE ∷ [])
    && ie.vendor_oui_type == 1
    && ie.payload.version == 1
    && not (is_ours self_npub_hash ie.payload)

place : List ℕ → PricePayload → ℤ → ℤ → Option ℕ → Market → Market
unfolding announced find_free_slot
place sa p rssi now (some i) m = record m { entries = modify m.entries i (announced sa p rssi now) }
place sa p rssi now none m = record {
  entries = modify m.entries (find_free_slot m) (announced sa p rssi now);
  count = if ltb m.count max_entries then m.count + 1 else m.count;
}

-- tollgate_core_market_parse_ie, for an element that is not NULL, at a time of the clock.
pub parse_ie : List ℕ → VendorIe → ℤ → Option (List ℕ) → ℤ → Market → Market
unfolding is_announcement place is_bssid
parse_ie sa ie rssi self_npub_hash now m =
    if is_announcement ie self_npub_hash
    then place sa ie.payload rssi now (find_index (is_bssid sa) m.entries) m
    else m

named : Text → ℤ → MarketEntry → MarketEntry
named ssid rssi e = record e { ssid = c_str (take 32 ssid); rssi = rssi }

update_found : Text → ℤ → Option ℕ → Market → Market
unfolding named
update_found ssid rssi none m = m
update_found ssid rssi (some i) m = record m { entries = modify m.entries i (named ssid rssi) }

-- tollgate_core_market_update_ssid.
update_ssid : List ℕ → Text → ℤ → Market → Market
unfolding update_found is_bssid
update_ssid bssid ssid rssi m = update_found ssid rssi (find_index (is_bssid bssid) m.entries) m

-- The price of 60 seconds or a MiB, as the uint32_t arithmetic gives it.
unfoldable pub eff_price : MarketEntry → ℕ
eff_price e =
    if e.metric == 0
    then e.price_per_step * 60000 % 4294967296 / e.step_size
    else e.price_per_step * 1048576 % 4294967296 / e.step_size

-- The entries that the loop does not skip.
unfoldable pub is_offer : MarketEntry → Bool
is_offer e = e.valid && not (is_empty e.ssid) && not (e.step_size == 0)

-- The loop of tollgate_core_market_find_cheapest from entry i.
unfoldable pub cheapest_from : List MarketEntry → ℕ → Option ℕ → ℕ → Option ℕ
unfolding eff_price is_offer
cheapest_from [] i cheapest best = cheapest
cheapest_from (e ∷ es) i cheapest best =
    if is_offer e && ltb (eff_price e) best
    then cheapest_from es (suc i) (some i) (eff_price e)
    else cheapest_from es (suc i) cheapest best

-- tollgate_core_market_find_cheapest; `none` is -1.
unfoldable pub find_cheapest : Market → Option ℕ
unfolding cheapest_from
find_cheapest m = cheapest_from m.entries 0 none 4294967295
