-- ===== src/Ehash/Hops.antt =====
-- components/ehash_relay: packets along a path of relays.
use tollgate_esp.Prelude.{
  ℕ, ◌+◌, ◌≤◌, ◌<◌, ◌≡◌, refl, Bool, true, false, Option, none, some, List, [], ◌∷◌, leb, length,
  arith,
}
use tollgate_esp.Ehash.Packet.{Packet, relay_forward}

-- The relays on a path forward the packet one after the other until one of them drops it.
along : List ℕ → Packet → Option Packet
along [] p = some p
along (next ∷ path) p = elim (relay_forward p next).1 [
  | none ↦ along path (relay_forward p next).0
  | some e ↦ none
]

reached : Option Packet → Bool
reached none = false
reached (some p) = true

pub is_delivered : List ℕ → Packet → Bool
unfolding along reached
is_delivered path p = reached (along path p)

-- A packet within its limit, if that is below 255, reaches the end of exactly the paths that the
-- limit allows: the hop count it has and the relays of the path are at most max_hops together.
pub delivered_exactly :
    (path : List ℕ) (p : Packet)
    → p.max_hops < 255
    → p.hop_count ≤ p.max_hops
    → is_delivered path p ≡ leb (p.hop_count + length path) p.max_hops
unfolding is_delivered along reached relay_forward
delivered_exactly [] p below within = ground arith
delivered_exactly (next ∷ path) p below within =
    ground (arith, delivered_exactly path ((relay_forward p next).0))

-- A packet whose limit is 255 is never dropped, however long the path: the counter wraps to 0.
pub never_dropped : (path : List ℕ) (p : Packet) → p.max_hops ≡ 255 → is_delivered path p ≡ true
unfolding is_delivered along reached relay_forward
never_dropped [] p top = refl
never_dropped (next ∷ path) p top = ground (arith, never_dropped path ((relay_forward p next).0))
