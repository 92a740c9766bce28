-- ===== src/Market/Sound.antt =====
-- components/tollgate_core/src/tollgate_core_market.c: the invariant of the table.
use tollgate_esp.Prelude.{
  ℕ, suc, ◌+◌, ◌≤◌, ◌<◌, ◌≡◌, refl, sym, ap, ◌∙◌, Bool, true, Option, none, some, List, [], ◌∷◌,
  ltb, if◌then◌else◌, modify, find_index, count_if, get_elem?, length, text_eq, text_eq→eq, arith,
  Text, length-modify, count_if-modify, count_if-modify_same, count_if-le, count_if-not,
  count_if-zero, find_index_hit, find_index_miss, get_elem?-exists, Bool-cases, inl, inr,
  count_if-replicate,
}
use tollgate_esp.Prelude.Int.{ℤ}
use tollgate_esp.Market.{
  MarketEntry, Market, PricePayload, VendorIe, init, is_bssid, is_valid, is_invalid, oldest_from,
  oldest_of, free_or_oldest, find_free_slot, announced, is_announcement, place, parse_ie, named,
  update_found, update_ssid, blank_entry,
}

pub record IsSound (m : Market) : Type 0 where
  pub slots : length m.entries ≡ 10
  pub counted : m.count ≡ count_if is_valid m.entries
  pub unique : (bssid : List ℕ) → count_if (is_bssid bssid) m.entries ≤ 1

-- The oldest entry is one of the table.
oldest_from-lt :
    (es : List MarketEntry) (i oldest : ℕ) (t : ℤ)
    → oldest < i
    → oldest_from es i oldest t < i + length es
unfolding oldest_from
oldest_from-lt [] i oldest t h = omega arith
oldest_from-lt (e ∷ es) i oldest t h =
    ground (arith, oldest_from-lt es (suc i) i e.discovered_ms, oldest_from-lt es (suc i) oldest t)

pub oldest_of-lt : (es : List MarketEntry) → 0 < length es → oldest_of es < length es
unfolding oldest_of
oldest_of-lt [] h = h
oldest_of-lt (e ∷ es) h = omega (arith, oldest_from-lt es 1 0 e.discovered_ms (omega arith))

init-IsSound : IsSound init
unfolding init is_valid is_bssid count_if
init-IsSound = record {
  slots = refl;
  counted = refl;
  unique = λ b. omega (arith, count_if-replicate (is_bssid b) 10 blank_entry refl);
}

-- An entry for a BSSID that the table does not have yet goes to any slot.
unique-new :
    (sa : List ℕ) (p : PricePayload) (rssi now : ℤ) (j : ℕ) (e : MarketEntry) (m : Market)
    → IsSound m
    → count_if (is_bssid sa) m.entries ≡ 0
    → get_elem? m.entries j ≡ some e
    → (b : List ℕ) → count_if (is_bssid b) (modify m.entries j (announced sa p rssi now)) ≤ 1
unfolding is_bssid announced
unique-new sa p rssi now j e m v new at b =
    let change = count_if-modify (is_bssid b) m.entries j (announced sa p rssi now) e at in
    elim (Bool-cases (text_eq sa b)) [
      | inl same ↦
          let none_yet =
            ap (λ a. count_if (is_bssid a) m.entries) (sym (text_eq→eq sa b same)) ∙ new in
          ground (arith, change, same, none_yet)
      | inr other ↦ ground (arith, change, other, IsSound.unique v b)
    ]

place_new-IsSound :
    (sa : List ℕ) (p : PricePayload) (rssi now : ℤ) (o : Option ℕ) (m : Market)
    → IsSound m
    → count_if (is_bssid sa) m.entries ≡ 0
    → find_index is_invalid m.entries ≡ o
    → IsSound (record {
      entries = modify m.entries (free_or_oldest o m.entries) (announced sa p rssi now);
      count = if ltb m.count 10 then m.count + 1 else m.count;
    })
unfolding free_or_oldest is_valid is_invalid announced
place_new-IsSound sa p rssi now (some j) m v new found =
    let (e, at, free) = find_index_hit is_invalid m.entries j found in
    let change = count_if-modify is_valid m.entries j (announced sa p rssi now) e at in
    record {
      slots = length-modify m.entries j (announced sa p rssi now) ∙ IsSound.slots v;
      counted = ground (
        arith,
        change,
        free,
        IsSound.counted v,
        IsSound.slots v,
        count_if-le is_valid (modify m.entries j (announced sa p rssi now)),
        length-modify m.entries j (announced sa p rssi now),
      );
      unique = unique-new sa p rssi now j e m v new at;
    }
place_new-IsSound sa p rssi now none m v new found =
    let j = oldest_of m.entries in
    let (e, at) =
      get_elem?-exists m.entries j (oldest_of-lt m.entries (omega (arith, IsSound.slots v))) in
    let full = find_index_miss is_invalid m.entries found in
    let on = count_if-zero is_invalid m.entries j e full at in
    let change = count_if-modify is_valid m.entries j (announced sa p rssi now) e at in
    record {
      slots = length-modify m.entries j (announced sa p rssi now) ∙ IsSound.slots v;
      counted = ground (
        arith,
        change,
        on,
        IsSound.counted v,
        IsSound.slots v,
        full,
        count_if-not is_valid m.entries,
      );
      unique = unique-new sa p rssi now j e m v new at;
    }

bssid_of : (sa : List ℕ) (e : MarketEntry) → is_bssid sa e ≡ true → e.bssid ≡ sa
unfolding is_bssid
bssid_of sa e h = text_eq→eq e.bssid sa (ground arith)

place_known-IsSound :
    (sa : List ℕ) (p : PricePayload) (rssi now : ℤ) (i : ℕ) (e : MarketEntry) (m : Market)
    → IsSound m
    → get_elem? m.entries i ≡ some e
    → is_bssid sa e ≡ true
    → IsSound (record m { entries = modify m.entries i (announced sa p rssi now) })
unfolding is_valid is_bssid announced
place_known-IsSound sa p rssi now i e m v at known =
    let change =
      λ (q : MarketEntry → Bool). count_if-modify q m.entries i (announced sa p rssi now) e at in
    record {
      slots = length-modify m.entries i (announced sa p rssi now) ∙ IsSound.slots v;
      counted = ground (arith, change is_valid, known, IsSound.counted v);
      unique = λ b.
          let same = ap (λ a. text_eq a b) (bssid_of sa e known) in
          ground (arith, change (is_bssid b), known, same, IsSound.unique v b);
    }

place-IsSound :
    (sa : List ℕ) (p : PricePayload) (rssi now : ℤ) (o : Option ℕ) (m : Market)
    → find_index (is_bssid sa) m.entries ≡ o
    → IsSound m
    → IsSound (place sa p rssi now o m)
unfolding place find_free_slot
place-IsSound sa p rssi now (some i) m found v =
    let (e, at, known) = find_index_hit (is_bssid sa) m.entries i found in
    place_known-IsSound sa p rssi now i e m v at known
place-IsSound sa p rssi now none m found v =
    place_new-IsSound sa p rssi now (find_index is_invalid m.entries) m v
      (find_index_miss (is_bssid sa) m.entries found) refl

parse_ie-IsSound :
    (sa : List ℕ) (ie : VendorIe) (rssi : ℤ) (self : Option (List ℕ)) (now : ℤ) (m : Market)
    → IsSound m
    → IsSound (parse_ie sa ie rssi self now m)
unfolding parse_ie
parse_ie-IsSound sa ie rssi self now m v = elim (Bool-cases (is_announcement ie self)) [
  | inl ours ↦
      rw ours (place-IsSound sa ie.payload rssi now (find_index (is_bssid sa) m.entries) m refl v)
  | inr other ↦ rw other v
]

update_found-IsSound :
    (ssid : Text) (rssi : ℤ) (o : Option ℕ) (m : Market)
    → IsSound m
    → IsSound (update_found ssid rssi o m)
unfolding update_found is_valid is_bssid
update_found-IsSound ssid rssi none m v = v
update_found-IsSound ssid rssi (some i) m v = record {
  slots = length-modify m.entries i (named ssid rssi) ∙ IsSound.slots v;
  counted =
      IsSound.counted v
      ∙ sym (count_if-modify_same is_valid (named ssid rssi) m.entries i (λ e. refl));
  unique = λ b. omega (
    arith,
    IsSound.unique v b,
    count_if-modify_same (is_bssid b) (named ssid rssi) m.entries i (λ e. refl),
  );
}

-- What a scan brings: a vendor element of a beacon, or the name that goes with a BSSID.
pub data Heard : Type 0 where
  element : List ℕ → VendorIe → ℤ → Option (List ℕ) → ℤ → Heard
  ssid_of : List ℕ → Text → ℤ → Heard

hear : Heard → Market → Market
hear (element sa ie rssi self now) m = parse_ie sa ie rssi self now m
hear (ssid_of bssid ssid rssi) m = update_ssid bssid ssid rssi m

pub scanned : List Heard → Market → Market
scanned [] m = m
scanned (h ∷ hs) m = scanned hs (hear h m)

hear-IsSound : (h : Heard) (m : Market) → IsSound m → IsSound (hear h m)
unfolding hear update_ssid
hear-IsSound (element sa ie rssi self now) m v = parse_ie-IsSound sa ie rssi self now m v
hear-IsSound (ssid_of bssid ssid rssi) m v =
    update_found-IsSound ssid rssi (find_index (is_bssid bssid) m.entries) m v

scanned-from : (hs : List Heard) (m : Market) → IsSound m → IsSound (scanned hs m)
unfolding scanned
scanned-from [] m v = v
scanned-from (h ∷ hs) m v = scanned-from hs (hear h m) (hear-IsSound h m v)

-- Whatever was heard since the start, the market has its ten entries, its count is the number of
-- valid ones, and no two valid ones have the same BSSID.
pub scanned-IsSound : (hs : List Heard) → IsSound (scanned hs init)
scanned-IsSound hs = scanned-from hs init init-IsSound
