-- ===== src/Gate/Results.antt =====
-- What the result of tollgate_core_session_create says of the tables.
use tollgate_esp.Prelude.{
  ℕ, ◌≤◌, ◌≡◌, refl, true, Option, none, some, arith, count_if-pos, find_index, find_index_hit,
}
use tollgate_esp.Gate.State.{Gate, Env}
use tollgate_esp.Gate.Firewall.{fw_is_allowed, fw_is_allowed-occ}
use tollgate_esp.Gate.Session.{
  serves, is_free, make_room, open_slot, open_found, extend, extended, create, create_found,
  find_by_ip, counting_bytes, create_bytes, mark_bytes,
}
use tollgate_esp.Gate.Invariant.{holders, IsPaidOnly}
use tollgate_esp.Gate.Opening.{holders-open_at}
use tollgate_esp.Gate.Upkeep.{holders-rewritten}
use tollgate_esp.Gate.Creation.{
  extended-Keeps, counting_bytes-Keeps, create-IsPaidOnly, create_bytes-IsPaidOnly,
}

-- The address that a search found has a session.
holder_of_hit : (ip i : ℕ) (g : Gate) → find_by_ip ip g ≡ some i → 1 ≤ holders ip g
unfolding find_by_ip
holder_of_hit ip i g eq =
    let (s, at, hit) = find_index_hit (serves ip) g.sessions i eq in
    count_if-pos (serves ip) g.sessions i s at hit

holders-open_slot :
    (e : Env) (ip ms i : ℕ) (g : Gate)
    → (open_slot e ip ms g).1 ≡ some i
    → 1 ≤ holders ip (open_slot e ip ms g).0
unfolding open_slot
holders-open_slot e ip ms i g = found (find_index is_free g.sessions) refl
  where
    found :
        (o : Option ℕ)
        → find_index is_free g.sessions ≡ o
        → (open_found e ip ms o g).1 ≡ some i
        → 1 ≤ holders ip (open_found e ip ms o g).0
    found none eq made = absurd (ground arith)
    found (some k) eq made =
        let (s, at, free) = find_index_hit is_free g.sessions k eq in
        ground (arith, holders-open_at e ip ms k s g at (ground arith) ip)

holders-extend : (i ms ip : ℕ) (g : Gate) → holders ip (extend i ms g) ≡ holders ip g
unfolding extend
holders-extend i ms ip g = holders-rewritten i (extended ms) g (extended-Keeps ms) ip

holders-create :
    (e : Env) (ip ms i : ℕ) (g : Gate)
    → (create e ip ms g).1 ≡ some i
    → 1 ≤ holders ip (create e ip ms g).0
unfolding create
holders-create e ip ms i g = found (find_by_ip ip g) refl
  where
    found :
        (o : Option ℕ)
        → find_by_ip ip g ≡ o
        → (create_found e ip ms o g).1 ≡ some i
        → 1 ≤ holders ip (create_found e ip ms o g).0
    found none eq made = holders-open_slot e ip ms i (make_room e g) made
    found (some k) eq made = omega (arith, holder_of_hit ip k g eq, holders-extend k ms ip g)

-- The address of a session that was made or extended is let through.
pub create-allowed :
    (e : Env) (ip ms i : ℕ) (g : Gate)
    → IsPaidOnly g
    → (create e ip ms g).1 ≡ some i
    → fw_is_allowed ip (create e ip ms g).0 ≡ true
create-allowed e ip ms i g v made = ground (
  arith,
  fw_is_allowed-occ ip (create e ip ms g).0,
  IsPaidOnly.exact (create-IsPaidOnly e ip ms g v) ip,
  holders-create e ip ms i g made,
)

holders-create_bytes :
    (e : Env) (ip n i : ℕ) (g : Gate)
    → (create_bytes e ip n g).1 ≡ some i
    → 1 ≤ holders ip (create_bytes e ip n g).0
unfolding create_bytes
holders-create_bytes e ip n i g =
    marked (create e ip 0 g).0 (create e ip 0 g).1 (λ j. holders-create e ip 0 j g)
  where
    marked :
        (k : Gate) (o : Option ℕ)
        → ((j : ℕ) → o ≡ some j → 1 ≤ holders ip k)
        → (mark_bytes n (k, o)).1 ≡ some i
        → 1 ≤ holders ip (mark_bytes n (k, o)).0
    marked k none h made = absurd (ground arith)
    marked k (some j) h made =
        omega
          (arith, h j refl, holders-rewritten j (counting_bytes n) k (counting_bytes-Keeps n) ip)

-- The same for sessions by bytes.
pub create_bytes-allowed :
    (e : Env) (ip n i : ℕ) (g : Gate)
    → IsPaidOnly g
    → (create_bytes e ip n g).1 ≡ some i
    → fw_is_allowed ip (create_bytes e ip n g).0 ≡ true
create_bytes-allowed e ip n i g v made = ground (
  arith,
  fw_is_allowed-occ ip (create_bytes e ip n g).0,
  IsPaidOnly.exact (create_bytes-IsPaidOnly e ip n g v) ip,
  holders-create_bytes e ip n i g made,
)
