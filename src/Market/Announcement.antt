-- ===== src/Market/Announcement.antt =====
-- tollgate_core_beacon.c and tollgate_core_market.c: an announcement, built and heard.
use tollgate_esp.Prelude.{
  ℕ, zero, suc, ◌≤◌, ◌<◌, ◌≡◌, refl, ◌∙◌, true, false, Option, none, some, List, [], ◌∷◌, ltb, ◌==◌,
  if◌then◌else◌, take, length, Text, text_eq, text_eq_refl, arith, get_elem?, get_elem?-exists,
  get_elem?-lt, get_elem?-modify_self, find_index, find_index_hit, count_if, Option-cases, inl, inr,
}
use tollgate_esp.Prelude.Int.{ℤ, pos}
use tollgate_esp.Payment.Token.{c_str}
use tollgate_esp.Market.{
  MarketEntry, Market, PricePayload, is_bssid, find_free_slot, free_or_oldest, announced, is_ours,
  is_announcement, place, parse_ie, is_invalid,
}
use tollgate_esp.Market.Sound.{IsSound, oldest_of-lt}
use tollgate_esp.Market.Beacon.{BeaconConfig, is_bytes, to_unsigned, padded, build_ie, received}

find_free_slot-lt : (m : Market) → IsSound m → find_free_slot m < length m.entries
unfolding find_free_slot free_or_oldest
find_free_slot-lt m v = elim (Option-cases (find_index is_invalid m.entries)) [
  | inl full ↦ rw (full, free_or_oldest) (oldest_of-lt m.entries (omega (arith, IsSound.slots v)))
  | inr (i, hit) ↦
      let (e, at, free) = find_index_hit is_invalid m.entries i hit in
      rw (hit, free_or_oldest) (get_elem?-lt m.entries i e at)
]

-- A placed announcement is an entry of the table.
place-listed :
    (sa : List ℕ) (p : PricePayload) (rssi now : ℤ) (o : Option ℕ) (m : Market)
    → find_index (is_bssid sa) m.entries ≡ o
    → IsSound m
    → (i : ℕ) × (e : MarketEntry) × (get_elem? (place sa p rssi now o m).entries i
        ≡ some (announced sa p rssi now e))
unfolding place
place-listed sa p rssi now (some i) m found v =
    let (e, at, its) = find_index_hit (is_bssid sa) m.entries i found in
    (i, e, get_elem?-modify_self m.entries i (announced sa p rssi now) ∙ rw at refl)
place-listed sa p rssi now none m found v =
    let j = find_free_slot m in
    let (e, at) = get_elem?-exists m.entries j (find_free_slot-lt m v) in
    (j, e, get_elem?-modify_self m.entries j (announced sa p rssi now) ∙ rw at refl)

c_str-whole : (s : Text) → count_if (λ c. c == 0) s ≡ 0 → c_str s ≡ s
unfolding c_str count_if
c_str-whole [] h = refl
c_str-whole (c ∷ s) h = ground (arith, c_str-whole s)

c_str-padded :
    (n : ℕ) (s : Text)
    → count_if (λ c. c == 0) s ≡ 0
    → c_str (take (length (take n s)) (padded n s)) ≡ take n s
unfolding c_str count_if padded
c_str-padded zero s h = refl
c_str-padded (suc n) [] h = refl
c_str-padded (suc n) (c ∷ s) h = ground (arith, c_str-padded n s)

length-take_max : (n : ℕ) (s : Text) → length (take n s) ≤ n
length-take_max zero s = omega arith
length-take_max (suc n) [] = omega arith
length-take_max (suc n) (c ∷ s) = omega (arith, length-take_max n s)

announced-bssid :
    (sa : List ℕ) (p : PricePayload) (rssi now : ℤ) (e : MarketEntry)
    → is_bssid sa (announced sa p rssi now e) ≡ true
unfolding is_bssid announced
announced-bssid sa p rssi now e = ground (arith, text_eq_refl sa)

announced-geohash :
    (sa : List ℕ) (p : PricePayload) (rssi now : ℤ) (e : MarketEntry) (s : Text)
    → p.geohash_len ≡ length (take 9 s)
    → p.geohash ≡ padded 9 s
    → count_if (λ c. c == 0) s ≡ 0
    → (announced sa p rssi now e).geohash ≡ take 9 s
unfolding announced
announced-geohash sa p rssi now e s len bytes clean =
    let shorter : ltb 9 (length (take 9 s)) ≡ false = ground (arith, length-take_max 9 s) in
    rw (len, bytes, shorter) (c_str-padded 9 s clean)

module _ (sha256 : Text → List ℕ) (cfg : BeaconConfig) where
  build_ie-announces :
      (self : Option (List ℕ))
      → is_ours self (build_ie sha256 cfg).payload ≡ false
      → is_announcement (received (build_ie sha256 cfg)) self ≡ true
  unfolding is_announcement build_ie text_eq
  build_ie-announces self other = rw other refl

  built-len : (build_ie sha256 cfg).payload.geohash_len ≡ length (take 9 cfg.geohash)
  unfolding build_ie
  built-len = refl

  built-geohash : (build_ie sha256 cfg).payload.geohash ≡ padded 9 cfg.geohash
  unfolding build_ie
  built-geohash = refl

  listed-price :
      (n : ℕ) (sa : List ℕ) (rssi now : ℤ) (e : MarketEntry)
      → cfg.price_per_step ≡ pos n
      → n < 65536
      → (announced sa (build_ie sha256 cfg).payload rssi now e).price_per_step ≡ n
  unfolding build_ie announced to_unsigned
  listed-price n sa rssi now e price small = rw (price, to_unsigned) (omega arith)

  listed-metric :
      (sa : List ℕ) (rssi now : ℤ) (e : MarketEntry)
      → (announced sa (build_ie sha256 cfg).payload rssi now e).metric
        ≡ (if is_bytes cfg then 1 else 0)
  unfolding build_ie announced
  listed-metric sa rssi now e = refl

-- A gate with a sound market that hears the announcement of another one, whose npub hash is not its
-- own, of a price that fits 16 bits and a geohash without a NUL, lists under the sender's BSSID that
-- price, its metric and the first nine characters of its geohash.
pub announcement_round_trip :
    (sha256 : Text → List ℕ) (cfg : BeaconConfig) (n : ℕ) (sa : List ℕ) (rssi : ℤ)
    (self : Option (List ℕ)) (now : ℤ) (m : Market)
    → IsSound m
    → is_ours self (build_ie sha256 cfg).payload ≡ false
    → cfg.price_per_step ≡ pos n
    → n < 65536
    → count_if (λ c. c == 0) cfg.geohash ≡ 0
    → (i : ℕ) × (e : MarketEntry) × (get_elem?
          (parse_ie sa (received (build_ie sha256 cfg)) rssi self now m).entries
          i
        ≡ some e)
      × (is_bssid sa e ≡ true)
      × (e.price_per_step ≡ n)
      × (e.metric ≡ (if is_bytes cfg then 1 else 0))
      × (e.geohash ≡ take 9 cfg.geohash)
unfolding parse_ie
announcement_round_trip sha256 cfg n sa rssi self now m v other price small clean =
    let p = (build_ie sha256 cfg).payload in
    let (i, e, at) = place-listed sa p rssi now (find_index (is_bssid sa) m.entries) m refl v in
    (
      i,
      announced sa p rssi now e,
      rw (build_ie-announces sha256 cfg self other) at,
      announced-bssid sa p rssi now e,
      listed-price sha256 cfg n sa rssi now e price small,
      listed-metric sha256 cfg sa rssi now e,
      announced-geohash sa p rssi now e cfg.geohash (built-len sha256 cfg)
          (built-geohash sha256 cfg) clean,
    )
