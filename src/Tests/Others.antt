-- ===== src/Tests/Others.antt =====
-- The theorems on mints, the relays and the market at concrete inputs.
use tollgate_esp.Prelude.{
  ℕ, ◌≡◌, ◌<◌, ◌≤◌, refl, true, false, none, some, List, [], ◌∷◌, leb, arith, length, replicate,
  Text, codes, count_if, text_eq,
}
use tollgate_esp.Prelude.Int.{pos, negsuc}
use tollgate_esp.Mints.Health.{MintStatus, MintHealth, Probe}
use tollgate_esp.Mints.Probes.{Network}
use tollgate_esp.Mints.Recovery.{probed, streak, probed_reachable}
use tollgate_esp.Ehash.Packet.{Packet, ok, msg_type_is_valid, bytes_of, pack, unpack}
use tollgate_esp.Ehash.RoundTrip.{packet_of, unpack-pack}
use tollgate_esp.Relay.Limiter
use tollgate_esp.Relay.Limiter.{RateConfig, event, is_of, is_unused}
use tollgate_esp.Relay.Limiter.Limit.{checks, checks_lem}
use tollgate_esp.Relay.Limiter.Window.{in_window, limit_of, min}
use tollgate_esp.Relay.Subs.{SubFilter, SubManager, remove, not_found, match_json, is_match}
use tollgate_esp.Relay.Subs
use tollgate_esp.Relay.Subs.Sound.{IsSound}
use tollgate_esp.Relay.Subs.Requests.{
  Request, subscribe, close, disconnect, handled, handled-IsSound,
}
use tollgate_esp.Market.{
  MarketEntry, Market, PricePayload, VendorIe, blank_entry, find_cheapest, is_offer, eff_price,
  cheapest_from,
}
use tollgate_esp.Market
use tollgate_esp.Market.Sound
use tollgate_esp.Market.Sound.{Heard, element, ssid_of, scanned, scanned-IsSound}
use tollgate_esp.Market.Cheapest.{find_cheapest_lem}

abbrev good : Probe
good = record { ok = true; http_status = pos 200; err_code = pos 0; time_ms = pos 5 }

abbrev bad : Probe
bad = record { ok = false; http_status = pos 0; err_code = pos 7; time_ms = pos 6 }

abbrev unknown_mint : MintStatus
unknown_mint = record {
  url = codes "https://mint";
  reachable = false;
  consecutive_successes = 0;
  last_probe_ms = pos 0;
  last_http_status = pos 0;
  last_err = pos 0;
}

abbrev probes : List Probe
probes = good ∷ good ∷ bad ∷ good ∷ good ∷ good ∷ []

probed_reachable_example : (probed probes unknown_mint).reachable ≡ leb 3 (streak 0 probes)
probed_reachable_example = probed_reachable probes unknown_mint refl refl

abbrev network : Network
network = record {
  answers = λ u. text_eq u (codes "https://mint");
  error_of = λ u. pos 7;
  time_of = λ u. pos 9;
}

abbrev two_mints : MintHealth
two_mints = record {
  mints = unknown_mint ∷ record unknown_mint { url = codes "https://gone" } ∷ [];
}

nonce_valid : msg_type_is_valid 2 ≡ true
unfolding msg_type_is_valid
nonce_valid = refl

four_bytes : 4 ≤ length (bytes_of (some (1 ∷ 2 ∷ 3 ∷ 4 ∷ [])))
unfolding bytes_of
four_bytes = omega arith

unpack-pack_example :
    (bs : List ℕ) × (pack 2 0 4 305419896 (some (1 ∷ 2 ∷ 3 ∷ 4 ∷ [])) 4 (some 64) ≡ ok bs)
    × (unpack bs (length bs)
        ≡ ok (packet_of 2 0 4 305419896 4 (bytes_of (some (1 ∷ 2 ∷ 3 ∷ 4 ∷ [])))))
unpack-pack_example =
    unpack-pack 2 0 4 305419896 (some (1 ∷ 2 ∷ 3 ∷ 4 ∷ [])) 4 64 nonce_valid (omega arith)
      (omega arith) four_bytes (omega arith)

abbrev packet : ℕ → Packet
packet max = record {
  msg_type = 1;
  hop_count = 0;
  max_hops = max;
  sender_id = 1;
  payload_len = 0;
  payload = none;
}

abbrev limits : RateConfig
limits = record { events_per_minute = 2; reqs_per_minute = 60 }

abbrev three_times : List ℕ
three_times = 1000 ∷ 1001 ∷ 1059 ∷ []

three_times-inside : in_window 1000 three_times ≡ true
unfolding in_window
three_times-inside = refl

limiter-facts :
    (count_if (is_of 54) (Limiter.init (some limits)).buckets ≡ 0)
    × (0 < count_if is_unused (Limiter.init (some limits)).buckets)
unfolding Limiter.init is_of is_unused count_if
limiter-facts = (refl, omega arith)

few : limit_of (Limiter.init (some limits)).config event < 65536
unfolding Limiter.init
few = omega arith

checks_lem_example :
    (checks 54 event (1000 ∷ three_times) (Limiter.init (some limits))).1
    ≡ min 4 (limit_of (Limiter.init (some limits)).config event)
checks_lem_example =
    checks_lem 54 1000 event three_times (Limiter.init (some limits)) few (omega arith)
      three_times-inside limiter-facts.0 limiter-facts.1

abbrev notes : SubFilter
notes = record {
  ids = [];
  authors = [];
  kinds = pos 1 ∷ [];
  e_tags = [];
  p_tags = [];
  since = pos 0;
  until = pos 0;
  limit = pos 10;
}

abbrev long_id : Text
long_id = replicate 70 b'a'

abbrev requests : List Request
requests =
    subscribe 54 (codes "a") (notes ∷ [])
    ∷ subscribe 54 long_id (notes ∷ [])
    ∷ close 54 (codes "a")
    ∷ subscribe 55 (codes "b") (notes ∷ [])
    ∷ disconnect 55
    ∷ []

handled-IsSound_example : IsSound (handled requests Subs.init)
handled-IsSound_example = handled-IsSound requests

abbrev offer : PricePayload
offer = record {
  version = 1;
  metric = 0;
  price_per_step = 21;
  step_size = 60000;
  mint_hash = 1 ∷ 2 ∷ 3 ∷ 4 ∷ [];
  geohash_len = 4;
  geohash = codes "u4pruydqq";
  npub_hash = 5 ∷ 6 ∷ 7 ∷ 8 ∷ [];
}

abbrev heard : List Heard
heard =
    element (replicate 6 1)
      (record {
        vendor_oui = 0xC0 ∷ 0xFF ∷ 0xEE ∷ [];
        vendor_oui_type = 1;
        payload = offer;
        payload_len = 26;
      })
      (negsuc 49) none (pos 1000)
    ∷ ssid_of (replicate 6 1) (codes "TollGate-1") (negsuc 47)
    ∷ []

scanned-IsSound_example : Sound.IsSound (scanned heard Market.init)
scanned-IsSound_example = scanned-IsSound heard

abbrev dear : MarketEntry
dear = record blank_entry { ssid = codes "A"; price_per_step = 30; step_size = 60000; valid = true }

abbrev market : Market
market = record { entries = dear ∷ record dear { price_per_step = 20 } ∷ []; count = 2 }

second_chosen : find_cheapest market ≡ some 1
unfolding find_cheapest cheapest_from is_offer eff_price
second_chosen = refl

dear_offer : is_offer dear ≡ true
unfolding is_offer
dear_offer = refl

find_cheapest_lem_example :
    (is_offer (record dear { price_per_step = 20 }) ≡ true)
    × (eff_price (record dear { price_per_step = 20 }) ≤ eff_price dear)
find_cheapest_lem_example =
    find_cheapest_lem market 1 0 (record dear { price_per_step = 20 }) dear second_chosen refl refl
      dear_offer

abbrev by_bytes : MarketEntry
by_bytes = record dear { metric = 1; price_per_step = 0 }
