-- ===== src/Selector/Best.antt =====
-- main/relay_selector.c: the relay that is chosen, against all of those that are alive.
use tollgate_esp.Prelude.{
  ℕ, ◌≡◌, Bool, true, false, not, ◌&&◌, some, List, [], ◌∷◌, if◌then◌else◌, count_if, get_elem?,
  filter,
}
use tollgate_esp.Prelude.Int.{ℤ, leb_ℤ}
use tollgate_esp.Selector.{RelayInfo, Selector, comes_first, is_alive, sorted, to_int32}

le : ℤ → ℤ → Bool
le x y = leb_ℤ x y

-- The order that compare_relays gives, on what it reads of two relays.
first_of : Bool → Bool → ℤ → ℤ → ℤ → ℤ → Bool
first_of a b sa sb la lb =
    if a && not b
    then true
    else if not a && b
    then false
    else if le sb sa && le sa sb
    then le la lb
    else le sb sa

latency : RelayInfo → ℤ
latency r = to_int32 r.latency_ms

-- The relays that the order puts before one.
worse : RelayInfo → RelayInfo → Bool
worse h r = not (comes_first h r)

-- The first of a list comes before the others.
HasLeast : List RelayInfo → Type 0
HasLeast [] = Unit
HasLeast (h ∷ t) = count_if (worse h) t ≡ 0

module _ (relays t : List RelayInfo) (h : RelayInfo)
    (best : sorted (filter is_alive relays) ≡ h ∷ t) where
  module _ (e : RelayInfo) (first : comes_first h e ≡ true) where
    good : RelayInfo → Bool
    good r = is_alive r && comes_first r e

-- What the choice comes to.
IsBest : Selector → RelayInfo → Selector → Type 0
IsBest sel e after =
    (p : ℕ) × (r : RelayInfo) × (after.primary_idx ≡ some p)
    × (get_elem? sel.relays p ≡ some r)
    × (r.alive ≡ true)
    × (comes_first r e ≡ true)
