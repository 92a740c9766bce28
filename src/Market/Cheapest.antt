-- ===== src/Market/Cheapest.antt =====
-- components/tollgate_core/src/tollgate_core_market.c: the offer that is chosen.
use mathlib.Core.Option.{some-injective}
use native.Mathlib.Nat.{div-le_self}
use tollgate_esp.Prelude.{
  ℕ, zero, suc, ◌+◌, ◌*◌, ◌/◌, ◌%◌, ◌≤◌, ◌<◌, ◌≡◌, ◌≢◌, refl, sym, ap, ◌∙◌, true, false, ◌&&◌,
  Option, none, some, List, [], ◌∷◌, ltb, ◌==◌, if◌then◌else◌, get_elem?, arith, Bool-cases, inl,
  inr,
}
use tollgate_esp.Market.{MarketEntry, Market, eff_price, is_offer, cheapest_from, find_cheapest}

-- The lowest price among the offers, and a bound.
lowest : List MarketEntry → ℕ → ℕ
lowest [] best = best
lowest (e ∷ es) best =
    if is_offer e && ltb (eff_price e) best then lowest es (eff_price e) else lowest es best

-- The offer at place i costs this much.
OfferAt : List MarketEntry → ℕ → ℕ → Type 0
OfferAt es i price =
    (e : MarketEntry) × (get_elem? es i ≡ some e) × (is_offer e ≡ true) × (eff_price e ≡ price)

lowest-le : (es : List MarketEntry) (best : ℕ) → lowest es best ≤ best
unfolding lowest
lowest-le [] best = omega arith
lowest-le (e ∷ es) best = ground (arith, lowest-le es (eff_price e), lowest-le es best)

-- It is no higher than the price of any offer.
lowest-bound :
    (es : List MarketEntry) (best j : ℕ) (e : MarketEntry)
    → get_elem? es j ≡ some e
    → is_offer e ≡ true
    → lowest es best ≤ eff_price e
unfolding lowest
lowest-bound [] best j e at offer = absurd (ground arith)
lowest-bound (d ∷ es) best zero e at offer =
    ground (arith, lowest-le es (eff_price d), lowest-le es best)
lowest-bound (d ∷ es) best (suc j) e at offer =
    ground (arith, lowest-bound es (eff_price d) j e at offer, lowest-bound es best j e at offer)

-- The loop keeps its start, which was no dearer, or ends at the place of an offer of that price.
data Ends (es : List MarketEntry) (i : ℕ) (cheapest : Option ℕ) (best : ℕ) : Type 0 where
  kept :
      cheapest_from es i cheapest best ≡ cheapest → lowest es best ≡ best → Ends es i cheapest best
  moved :
      (j : ℕ)
      → cheapest_from es i cheapest best ≡ some (i + j)
      → OfferAt es j (lowest es best)
      → Ends es i cheapest best

module _ (e : MarketEntry) (es : List MarketEntry) (i : ℕ) (cheapest : Option ℕ) (best : ℕ) where
  from-take :
      is_offer e && ltb (eff_price e) best ≡ true
      → (cheapest_from (e ∷ es) i cheapest best ≡ cheapest_from es (suc i) (some i) (eff_price e))
        × (lowest (e ∷ es) best ≡ lowest es (eff_price e))
  unfolding cheapest_from lowest
  from-take take = (ground (arith, take), ground (arith, take))

  from-skip :
      is_offer e && ltb (eff_price e) best ≡ false
      → (cheapest_from (e ∷ es) i cheapest best ≡ cheapest_from es (suc i) cheapest best)
        × (lowest (e ∷ es) best ≡ lowest es best)
  unfolding cheapest_from lowest
  from-skip skip = (ground (arith, skip), ground (arith, skip))

  Ends-take :
      is_offer e && ltb (eff_price e) best ≡ true
      → Ends es (suc i) (some i) (eff_price e)
      → Ends (e ∷ es) i cheapest best
  unfolding OfferAt
  Ends-take take (kept k l) =
      moved 0 ((from-take take).0 ∙ k ∙ ap some (omega arith))
        (e, refl, ground (arith, take), sym ((from-take take).1 ∙ l))
  Ends-take take (moved j k (d, at, offer, price)) =
      moved (suc j) ((from-take take).0 ∙ k ∙ ap some (omega arith))
        (d, at, offer, price ∙ sym ((from-take take).1))

  Ends-skip :
      is_offer e && ltb (eff_price e) best ≡ false
      → Ends es (suc i) cheapest best
      → Ends (e ∷ es) i cheapest best
  unfolding OfferAt
  Ends-skip skip (kept k l) = kept ((from-skip skip).0 ∙ k) ((from-skip skip).1 ∙ l)
  Ends-skip skip (moved j k (d, at, offer, price)) =
      moved (suc j) ((from-skip skip).0 ∙ k ∙ ap some (omega arith))
        (d, at, offer, price ∙ sym ((from-skip skip).1))

ends : (es : List MarketEntry) (i : ℕ) (cheapest : Option ℕ) (best : ℕ) → Ends es i cheapest best
unfolding cheapest_from lowest
ends [] i cheapest best = kept refl refl
ends (e ∷ es) i cheapest best = elim (Bool-cases (is_offer e && ltb (eff_price e) best)) [
  | inl take ↦ Ends-take e es i cheapest best take (ends es (suc i) (some i) (eff_price e))
  | inr skip ↦ Ends-skip e es i cheapest best skip (ends es (suc i) cheapest best)
]

chosen :
    (m : Market) (i j : ℕ) (e d : MarketEntry)
    → Ends m.entries 0 none 4294967295
    → find_cheapest m ≡ some i
    → get_elem? m.entries i ≡ some e
    → get_elem? m.entries j ≡ some d
    → is_offer d ≡ true
    → (is_offer e ≡ true) × (eff_price e ≤ eff_price d)
unfolding find_cheapest OfferAt
chosen m i j e d (kept k l) found at there its = absurd (ground (arith, k, found))
chosen m i j e d (moved n k (c, here, offer, price)) found at there its =
    let same = ap (λ p. get_elem? m.entries p) (ground (arith, k, found)) ∙ here in
    let is = some-injective e c (sym at ∙ same) in
    (
      ap is_offer is ∙ offer,
      omega (arith, ap eff_price is, price, lowest-bound m.entries 4294967295 j d there its),
    )

-- The chosen entry is an offer, and no offer of the market has a lower price; prices as the
-- uint32_t arithmetic of the code gives them.
pub find_cheapest_lem :
    (m : Market) (i j : ℕ) (e d : MarketEntry)
    → find_cheapest m ≡ some i
    → get_elem? m.entries i ≡ some e
    → get_elem? m.entries j ≡ some d
    → is_offer d ≡ true
    → (is_offer e ≡ true) × (eff_price e ≤ eff_price d)
unfolding find_cheapest
find_cheapest_lem m i j e d found at there its =
    chosen m i j e d (ends m.entries 0 none 4294967295) found at there its

-- An effective price is below UINT32_MAX: the product is even, and a quotient is no larger.
eff_price-lt : (d : MarketEntry) → eff_price d < 4294967295
unfolding eff_price
eff_price-lt d = ground (
  arith,
  div-le_self (d.price_per_step * 60000 % 4294967296) d.step_size,
  div-le_self (d.price_per_step * 1048576 % 4294967296) d.step_size,
)

-- Where there is an offer, one is chosen.
pub find_cheapest-some :
    (m : Market) (j : ℕ) (d : MarketEntry)
    → get_elem? m.entries j ≡ some d
    → is_offer d ≡ true
    → find_cheapest m ≢ none
unfolding find_cheapest
find_cheapest-some m j d there its none_found = found (ends m.entries 0 none 4294967295)
  where
    found : Ends m.entries 0 none 4294967295 → ⊥
    found (kept k l) =
        absurd (omega (arith, l, eff_price-lt d, lowest-bound m.entries 4294967295 j d there its))
    found (moved n k o) = absurd (ground (arith, k, none_found))

-- The product wraps at 32 bits: for a metric of bytes a price that is higher by 4096 has the same
-- effective price, so 4096 per step counts as free.
pub eff_price_wraps :
    (e : MarketEntry)
    → e.metric == 0 ≡ false
    → eff_price (record e { price_per_step = e.price_per_step + 4096 }) ≡ eff_price e
unfolding eff_price
eff_price_wraps e bytes = rw bytes (ap (λ n. n / e.step_size) (omega arith))
