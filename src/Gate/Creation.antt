-- ===== src/Gate/Creation.antt =====
-- Creating a session: what it keeps, and what its result says.
use tollgate_esp.Prelude.{
  ℕ, ◌≡◌, refl, false, Option, none, some, arith, get_elem?, find_index, find_index_hit,
}
use tollgate_esp.Gate.State.{Gate, Session, Env}
use tollgate_esp.Gate.Session.{
  revoke, open_at, open_slot, open_found, extend, extended, counting_bytes, create_found, is_free,
  make_room, create, create_bytes, mark_bytes, find_by_ip, add_bytes, consumed, consume_found,
}
use tollgate_esp.Gate.Invariant.{holders, IsSound, IsPaidOnly}
use tollgate_esp.Gate.Slots.{revoke_cases, revoke-IsSound, revoke-IsPaidOnly, holders-close_slot}
use tollgate_esp.Gate.Opening.{open_at-IsSound, open_at-IsPaidOnly}
use tollgate_esp.Gate.Upkeep.{
  Keeps, rewritten, rewritten-IsSound, rewritten-IsPaidOnly, find_by_ip-none, make_room_keeps,
}

pub extended-Keeps : (ms : ℕ) → Keeps (extended ms)
unfolding extended
extended-Keeps ms s = ground arith

pub counting_bytes-Keeps : (n : ℕ) → Keeps (counting_bytes n)
unfolding counting_bytes
counting_bytes-Keeps n s = (refl, refl)

consumed-Keeps : (n : ℕ) → Keeps (consumed n)
unfolding consumed
consumed-Keeps n s = (refl, refl)

abbrev No : ℕ → Gate → Type 0
No ip g = holders ip g ≡ 0

revoke-No : (ip i : ℕ) (g : Gate) → No ip g → No ip (revoke i g)
revoke-No ip i g z =
    revoke_cases (No ip) i g z λ s at on. ground (arith, holders-close_slot i s g at ip on)

make_room-No : (ip : ℕ) (e : Env) (g : Gate) → No ip g → No ip (make_room e g)
make_room-No ip = make_room_keeps (No ip) (revoke-No ip)

-- What a session table keeps in every way that a session is made.
module _ {ℓ} (P : Gate → Type ℓ) (on_revoke : (i : ℕ) (g : Gate) → P g → P (revoke i g))
    (on_rewrite : (i : ℕ) (f : Session → Session) (g : Gate) → Keeps f → P g → P (rewritten i f g))
    (on_open : (e : Env) (ip ms i : ℕ) (s : Session) (g : Gate)
      → get_elem? g.sessions i ≡ some s
      → s.active ≡ false
      → P g
      → holders ip g ≡ 0
      → P (open_at e ip ms i g)) where
  open_slot_keeps :
      (e : Env) (ip ms : ℕ) (g : Gate) → P g → holders ip g ≡ 0 → P (open_slot e ip ms g).0
  unfolding open_slot
  open_slot_keeps e ip ms g h z = found (find_index is_free g.sessions) refl
    where
      found : (o : Option ℕ) → find_index is_free g.sessions ≡ o → P (open_found e ip ms o g).0
      found none eq = h
      found (some i) eq =
          let (s, at, free) = find_index_hit is_free g.sessions i eq in
          on_open e ip ms i s g at (ground arith) h z

  pub extend_keeps : (i ms : ℕ) (g : Gate) → P g → P (extend i ms g)
  unfolding extend
  extend_keeps i ms g h = on_rewrite i (extended ms) g (extended-Keeps ms) h

  pub create_keeps : (e : Env) (ip ms : ℕ) (g : Gate) → P g → P (create e ip ms g).0
  unfolding create
  create_keeps e ip ms g h = found (find_by_ip ip g) refl
    where
      found : (o : Option ℕ) → find_by_ip ip g ≡ o → P (create_found e ip ms o g).0
      found none eq =
          open_slot_keeps e ip ms (make_room e g) (make_room_keeps P on_revoke e g h)
            (make_room-No ip e g (find_by_ip-none ip g eq))
      found (some i) eq = extend_keeps i ms g h

  pub create_bytes_keeps : (e : Env) (ip n : ℕ) (g : Gate) → P g → P (create_bytes e ip n g).0
  unfolding create_bytes
  create_bytes_keeps e ip n g h =
      marked (create e ip 0 g).0 (create e ip 0 g).1 (create_keeps e ip 0 g h)
    where
      marked : (k : Gate) (o : Option ℕ) → P k → P (mark_bytes n (k, o)).0
      marked k none p = p
      marked k (some i) p = on_rewrite i (counting_bytes n) k (counting_bytes-Keeps n) p

  pub add_bytes_keeps : (ip n : ℕ) (g : Gate) → P g → P (add_bytes ip n g)
  unfolding add_bytes
  add_bytes_keeps ip n g h = found (find_by_ip ip g)
    where
      found : (o : Option ℕ) → P (consume_found n o g)
      found none = h
      found (some i) = on_rewrite i (consumed n) g (consumed-Keeps n) h

-- The two invariants.
pub create-IsSound : (e : Env) (ip ms : ℕ) (g : Gate) → IsSound g → IsSound (create e ip ms g).0
create-IsSound = create_keeps IsSound revoke-IsSound rewritten-IsSound open_at-IsSound

pub create-IsPaidOnly :
    (e : Env) (ip ms : ℕ) (g : Gate) → IsPaidOnly g → IsPaidOnly (create e ip ms g).0
create-IsPaidOnly =
    create_keeps IsPaidOnly revoke-IsPaidOnly rewritten-IsPaidOnly open_at-IsPaidOnly

pub create_bytes-IsSound :
    (e : Env) (ip n : ℕ) (g : Gate) → IsSound g → IsSound (create_bytes e ip n g).0
create_bytes-IsSound = create_bytes_keeps IsSound revoke-IsSound rewritten-IsSound open_at-IsSound

pub create_bytes-IsPaidOnly :
    (e : Env) (ip n : ℕ) (g : Gate) → IsPaidOnly g → IsPaidOnly (create_bytes e ip n g).0
create_bytes-IsPaidOnly =
    create_bytes_keeps IsPaidOnly revoke-IsPaidOnly rewritten-IsPaidOnly open_at-IsPaidOnly
