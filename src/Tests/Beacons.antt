-- ===== src/Tests/Beacons.antt =====
-- The theorem on announcements at a concrete input.
use tollgate_esp.Prelude.{
  ℕ, ◌≡◌, ◌==◌, refl, true, false, none, some, List, [], replicate, take, codes, count_if, arith,
  get_elem?, if◌then◌else◌, Text,
}
use tollgate_esp.Prelude.Int.{pos, negsuc}
use tollgate_esp.Market
use tollgate_esp.Market.{MarketEntry, Market, is_bssid, is_ours, parse_ie}
use tollgate_esp.Market.Sound.{scanned, scanned-IsSound}
use tollgate_esp.Market.Beacon.{BeaconConfig, is_bytes, build_ie, received}
use tollgate_esp.Market.Announcement.{announcement_round_trip}

abbrev config : BeaconConfig
config = record {
  mint_url = codes "https://mint";
  metric = codes "bytes";
  price_per_step = pos 21;
  step_size_ms = pos 60000;
  step_size_bytes = pos 22020096;
  geohash = codes "u4pruydqqvj";
  npub_hex = none;
  identity_initialized = false;
}

abbrev digest : Text → List ℕ
digest t = replicate 32 171

abbrev empty_market : Market
empty_market = scanned [] Market.init

another : is_ours none (build_ie digest config).payload ≡ false
unfolding is_ours
another = refl

no_nul : count_if (λ c. c == 0) config.geohash ≡ 0
unfolding count_if
no_nul = refl

announcement_round_trip_example :
    (i : ℕ) × (e : MarketEntry) × (get_elem?
        (parse_ie
          (replicate 6 1)
          (received (build_ie digest config))
          (negsuc 49)
          none
          (pos 5)
          empty_market).entries
        i
      ≡ some e)
    × (is_bssid (replicate 6 1) e ≡ true)
    × (e.price_per_step ≡ 21)
    × (e.metric ≡ (if is_bytes config then 1 else 0))
    × (e.geohash ≡ take 9 config.geohash)
announcement_round_trip_example =
    announcement_round_trip digest config 21 (replicate 6 1) (negsuc 49) none (pos 5) empty_market
      (scanned-IsSound []) another refl (omega arith) no_nul
