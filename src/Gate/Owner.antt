-- ===== src/Gate/Owner.antt =====
-- The owner of the gate in tollgate_core.c: the first client that connects.
use tollgate_esp.Prelude.{
  ℕ, ◌/◌, ◌%◌, ◌<◌, ◌≡◌, ◌≢◌, refl, ap, ◌∙◌, inl, inr, Bool-cases, Bool, true, false, not, ◌&&◌,
  Option, none, some, List, [], ◌∷◌, arith, ltb, ◌==◌, if◌then◌else◌, length, replicate, take,
  find_first, Text, text_eq, is_empty, text_eq→eq, text_eq_refl, hex_digit,
}
use tollgate_esp.Gate.State.{Gate, Session}
use tollgate_esp.Gate.Firewall.{fw_init, format_mac}
use tollgate_esp.Gate.Session.{session_init}

-- tollgate_core_init, for a platform that is not NULL.
unfoldable pub core_init : ℕ → Gate → Gate
core_init ap g = fw_init ap (
    session_init (record g {
      platform_set = true;
      ap_ip = ap;
      owner_connected = false;
      owner_mac = replicate 6 0;
    }))

or_kept : List ℕ → Option (List ℕ) → List ℕ
or_kept old none = old
or_kept old (some m) = m

-- tollgate_core_client_connected; `mac` may be NULL.
unfoldable pub client_connected : Option (List ℕ) → ℕ → Gate → Gate
unfolding or_kept
client_connected mac ip g =
    if g.owner_connected
    then g
    else record g { owner_connected = true; owner_ip = ip; owner_mac = or_kept g.owner_mac mac }

-- The test of the loop that looks for a new owner: it compares the first six characters of the
-- session's text with the six bytes of the address.
abbrev pub may_own : List ℕ → Session → Bool
may_own mac s = s.active && (not (is_empty s.mac) && not (text_eq (take 6 s.mac) mac))

take_over : Option Session → Gate → Gate
take_over none g = g
take_over (some s) g = record g { owner_connected = true; owner_ip = s.client_ip }

-- What follows when the owner has left.
unfoldable pub owner_left : List ℕ → Gate → Gate
unfolding take_over
owner_left mac g =
    let h = record g { owner_connected = false; owner_mac = replicate 6 0 } in
    if ltb 0 (length g.clients) then take_over (find_first (may_own mac) g.sessions) h else h

-- tollgate_core_client_disconnected.
unfoldable pub client_disconnected : Option (List ℕ) → Gate → Gate
client_disconnected none g = g
client_disconnected (some mac) g =
    if not g.owner_connected then g else if text_eq g.owner_mac mac then owner_left mac g else g

-- tollgate_core_is_owner.
pub is_owner : ℕ → Gate → Bool
is_owner ip g = g.owner_connected && g.owner_ip == ip

-- The one address whose text begins with its own bytes, 33:33:3a:33:33:3a.
abbrev pub self_named : List ℕ
self_named = 51 ∷ 51 ∷ 58 ∷ 51 ∷ 51 ∷ 58 ∷ []

-- Six bytes.
pub data SixBytes : List ℕ → Type 0 where
  six : (a b c d e f : ℕ) → SixBytes (a ∷ b ∷ c ∷ d ∷ e ∷ f ∷ [])

-- A byte that is the digit of its own upper half is '3'.
hex_digit_self : (a : ℕ) → a ≡ hex_digit (a / 16) → a ≡ 51
unfolding hex_digit
hex_digit_self a h = ground arith

three : (hex_digit (51 % 16) ≡ 51) × (hex_digit (51 / 16) ≡ 51)
unfolding hex_digit
three = (refl, refl)

-- The bytes that such a text can spell.
self_spelled :
    (a b c d e f : ℕ)
    → a ≡ hex_digit (a / 16)
    → b ≡ hex_digit (a % 16)
    → c ≡ 58
    → d ≡ hex_digit (b / 16)
    → e ≡ hex_digit (b % 16)
    → f ≡ 58
    → (a ∷ b ∷ c ∷ d ∷ e ∷ f ∷ []) ≡ self_named
self_spelled a b c d e f p q r s t u =
    let a_is : a ≡ 51 = hex_digit_self a p in
    let b_is : b ≡ 51 = rw a_is at q ∙ three.0 in
    let d_is : d ≡ 51 = rw b_is at s ∙ three.1 in
    let e_is : e ≡ 51 = rw b_is at t ∙ three.0 in ground arith

-- The first six characters of an address's text are not its bytes, but for one address.
text_of_mac : (m : List ℕ) → SixBytes m → m ≢ self_named → text_eq (take 6 (format_mac m)) m ≡ false
unfolding format_mac
text_of_mac m (six a b c d e f) other = elim (Bool-cases (text_eq (take 6 (format_mac m)) m)) [
  | inr no_match ↦ no_match
  | inl match ↦
      let same = text_eq→eq (take 6 (format_mac m)) m match in
      absurd (
        other (
          self_spelled a b c d e f (ground (arith, same)) (ground (arith, same))
            (ground (arith, same)) (ground (arith, same)) (ground (arith, same))
            (ground (arith, same))))
]

own_test :
    (m : List ℕ) (s : Session)
    → SixBytes m
    → m ≢ self_named
    → s.active ≡ true
    → s.mac ≡ format_mac m
    → may_own m s ≡ true
unfolding format_mac
own_test m s (six a b c d e f) other act named = ground (
  arith,
  named,
  ap (λ (t : Text). text_eq (take 6 t) m) named,
  text_of_mac m (six a b c d e f) other,
)

-- When the owner leaves while the first session of the table is active and its own, and some client
-- is granted, the gate makes it the owner again, for every address but one: the test that should
-- pass over its session compares text with bytes.
pub owner_left_again :
    (m : List ℕ) (s : Session) (rest : List Session) (g : Gate)
    → SixBytes m
    → m ≢ self_named
    → g.owner_connected ≡ true
    → g.owner_mac ≡ m
    → 0 < length g.clients
    → g.sessions ≡ s ∷ rest
    → s.active ≡ true
    → s.mac ≡ format_mac m
    → is_owner s.client_ip (client_disconnected (some m) g) ≡ true
unfolding client_disconnected is_owner owner_left find_first
owner_left_again m s rest g bytes other on own some_client table act named =
    ground (arith, left, found)
  where
    left : text_eq g.owner_mac m ≡ true
    left = rw own (text_eq_refl m)

    found : find_first (may_own m) g.sessions ≡ some s
    found = rw table (rw (own_test m s bytes other act named) refl)

-- A gate that has an owner keeps it whoever else connects, and whoever leaves under an address
-- that is not the owner's.
pub owner_stays :
    (m : List ℕ) (mac : Option (List ℕ)) (ip : ℕ) (g : Gate)
    → g.owner_connected ≡ true
    → text_eq g.owner_mac m ≡ false
    → (client_connected mac ip g ≡ g) × (client_disconnected (some m) g ≡ g)
unfolding client_connected client_disconnected
owner_stays m mac ip g on other = (ground arith, ground arith)
