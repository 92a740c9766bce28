-- ===== src/Relay/Connections/Full.antt =====
-- components/wisp_relay/ws_server.c: the count of the connections, and when one is refused.
use tollgate_esp.Prelude.{
  ℕ, ◌≡◌, refl, ap, ◌∙◌, Bool, true, false, Option, none, some, List, [], ◌∷◌, leb, if_yes, if_no,
  if-cases, ltb, is_some, find_index-count_if, count_if-not, Bool-cases, inl, inr, modify, length,
  length-modify, count_if, count_if-modify, count_if-modify_same, count_if-le, sym, find_index,
  find_index_hit, Text, arith,
}
use tollgate_esp.Relay.Connections.{
  Connection, WsServer, blank_connection, disconnect_at, connection_of, forget, is_on,
  is_free_place, on_open, connect_at, server_init, update_connection_activity, seen_at,
}

-- What changes the table.
pub data Call : Type 0 where
  opens : ℕ → ℕ → Option Text → Call
  closes : ℕ → Call
  sends : ℕ → ℕ → Call

unfoldable pub after : Call → WsServer → WsServer
after (opens fd seconds ip) server = (on_open fd seconds ip server).0
after (closes fd) server = forget fd server
after (sends fd seconds) server = update_connection_activity fd seconds server

unfoldable pub after_all : List Call → WsServer → WsServer
unfolding after
after_all [] server = server
after_all (c ∷ cs) server = after_all cs (after c server)

abbrev pub is_active : Connection → Bool
is_active conn = conn.active

-- Eight places, and an exact count.
pub record IsCounted (server : WsServer) : Type 0 where
  pub places : length server.connections ≡ 8
  pub counted : server.connection_count ≡ count_if is_active server.connections

connect_at-IsCounted :
    (fd seconds : ℕ) (ip : Option Text) (o : Option ℕ) (server : WsServer)
    → find_index is_free_place server.connections ≡ o
    → IsCounted server
    → IsCounted (connect_at fd seconds ip o server).0
unfolding connect_at connection_of is_free_place
connect_at-IsCounted fd seconds ip none server h w = w
connect_at-IsCounted fd seconds ip (some i) server h w =
    let (old, here, unused) = find_index_hit is_free_place server.connections i h in
    let one_more =
      count_if-modify is_active server.connections i (connection_of fd seconds ip) old here in
    let fits = count_if-le is_active (modify server.connections i (connection_of fd seconds ip)) in
    let same = length-modify server.connections i (connection_of fd seconds ip) in
    record {
      places = same ∙ w.places;
      counted = ground (arith, w.counted, w.places, one_more, fits, same, unused);
    }

disconnect_at-IsCounted :
    (fd : ℕ) (o : Option ℕ) (server : WsServer)
    → find_index (is_on fd) server.connections ≡ o
    → IsCounted server
    → IsCounted (disconnect_at o server)
unfolding disconnect_at is_on
disconnect_at-IsCounted fd none server h w = w
disconnect_at-IsCounted fd (some i) server h w =
    let (old, here, on) = find_index_hit (is_on fd) server.connections i h in
    let one_less =
      count_if-modify is_active server.connections i (λ conn. blank_connection) old here in
    let fits = count_if-le is_active server.connections in
    let same = length-modify server.connections i (λ conn. blank_connection) in
    record {
      places = same ∙ w.places;
      counted = ground (arith, w.counted, w.places, one_less, fits, on);
    }

seen_at-IsCounted :
    (seconds : ℕ) (o : Option ℕ) (server : WsServer)
    → IsCounted server
    → IsCounted (seen_at seconds o server)
unfolding seen_at
seen_at-IsCounted seconds none server w = w
seen_at-IsCounted seconds (some i) server w = record {
  places = length-modify server.connections i _ ∙ w.places;
  counted = w.counted ∙ sym (count_if-modify_same is_active _ server.connections i (λ a. refl));
}

on_open-IsCounted :
    (fd seconds : ℕ) (ip : Option Text) (server : WsServer)
    → IsCounted server
    → IsCounted (on_open fd seconds ip server).0
unfolding on_open
on_open-IsCounted fd seconds ip server w =
    if-cases (λ r. IsCounted (r.0)) (leb 8 server.connection_count) (server, false)
      (connect_at fd seconds ip (find_index is_free_place server.connections) server) (λ h. w)
      (λ h. connect_at-IsCounted fd seconds ip _ server refl w)

after-IsCounted : (c : Call) (server : WsServer) → IsCounted server → IsCounted (after c server)
unfolding after forget update_connection_activity
after-IsCounted (opens fd seconds ip) server w = on_open-IsCounted fd seconds ip server w
after-IsCounted (closes fd) server w = disconnect_at-IsCounted fd _ server refl w
after-IsCounted (sends fd seconds) server w = seen_at-IsCounted seconds _ server w

after_all-IsCounted :
    (cs : List Call) (server : WsServer) → IsCounted server → IsCounted (after_all cs server)
unfolding after_all
after_all-IsCounted [] server w = w
after_all-IsCounted (c ∷ cs) server w =
    after_all-IsCounted cs (after c server) (after-IsCounted c server w)

server_init-IsCounted : IsCounted server_init
unfolding server_init count_if
server_init-IsCounted = record { places = refl; counted = refl }

-- Where a place is free, it is found.
is_free_place-found :
    (server : WsServer)
    → IsCounted server
    → leb 8 server.connection_count ≡ false
    → is_some (find_index is_free_place server.connections) ≡ true
unfolding is_free_place
is_free_place-found server w h =
    find_index-count_if is_free_place server.connections
    ∙ ground (arith, w.places, w.counted, h, count_if-not is_active server.connections)

open_at_some :
    (fd seconds : ℕ) (ip : Option Text) (o : Option ℕ) (server : WsServer)
    → is_some o ≡ true
    → (connect_at fd seconds ip o server).1 ≡ true
unfolding connect_at
open_at_some fd seconds ip none server h = absurd (ground (arith, h))
open_at_some fd seconds ip (some i) server h = refl

on_open_accepts :
    (fd seconds : ℕ) (ip : Option Text) (server : WsServer)
    → IsCounted server
    → (on_open fd seconds ip server).1 ≡ ltb (count_if is_active server.connections) 8
unfolding on_open
on_open_accepts fd seconds ip server w =
    let full = leb 8 server.connection_count in
    let opened = connect_at fd seconds ip (find_index is_free_place server.connections) server in
    elim (Bool-cases full) [
      | inl h ↦
          let none_free : false ≡ ltb (count_if is_active server.connections) 8 =
            ground (arith, h, w.counted) in
          ap (λ r. r.1) (if_yes full (server, false) opened h) ∙ none_free
      | inr h ↦
          let one_free : true ≡ ltb (count_if is_active server.connections) 8 =
            ground (arith, h, w.counted) in
          ap (λ r. r.1) (if_no full (server, false) opened h)
          ∙ open_at_some fd seconds ip _ server (is_free_place-found server w h)
          ∙ one_free
    ]

-- Whatever connections were opened, closed or used since the server started, its table has eight
-- places and an exact count of those in use, and a new connection is accepted exactly if fewer than
-- eight are in use.
pub on_open-accepts :
    (cs : List Call) (fd seconds : ℕ) (ip : Option Text)
    → let server = after_all cs server_init in
      IsCounted server
      × ((on_open fd seconds ip server).1 ≡ ltb (count_if is_active server.connections) 8)
on_open-accepts cs fd seconds ip =
    let w = after_all-IsCounted cs server_init server_init-IsCounted in
    (w, on_open_accepts fd seconds ip (after_all cs server_init) w)
