-- ===== src/Relay/Connections.antt =====
-- components/wisp_relay/ws_server.c: the table of the connections, and what a frame does.
use tollgate_esp.Prelude.{
  ℕ, ◌+◌, ◌%◌, ◌^◌, Bool, true, false, not, ◌&&◌, Option, none, some, List, [], ◌∷◌, map, leb, ltb,
  ◌==◌, if◌then◌else◌, modify, replicate, find_index, filter, take, length, Text, codes,
}
use tollgate_esp.Relay.Subs
use tollgate_esp.Relay.Subs.{SubManager}
pub mod Full

-- WS_MAX_CONNECTIONS.
abbrev pub max_connections : ℕ
max_connections = 8

-- WS_MAX_FRAME_SIZE.
abbrev pub max_frame_size : ℕ
max_frame_size = 65536

-- ws_connection_t; a descriptor is a number.
pub record Connection : Type 0 where
  pub fd : ℕ
  pub active : Bool
  pub connected_at : ℕ
  pub last_activity : ℕ
  pub remote_ip : Text

-- A connection after memset.
abbrev pub blank_connection : Connection
blank_connection = record {
  fd = 0;
  active = false;
  connected_at = 0;
  last_activity = 0;
  remote_ip = [];
}

-- ws_server_t without its lock; `running` is a handle that is not NULL.
pub record WsServer : Type 0 where
  pub running : Bool
  pub connections : List Connection
  pub connection_count : ℕ

-- ws_server_init, on a server that does not run, where every part succeeds.
unfoldable pub server_init : WsServer
server_init = record {
  running = true;
  connections = replicate max_connections blank_connection;
  connection_count = 0;
}

-- ws_server_stop.
server_stop : WsServer → WsServer
server_stop server = record {
  running = false;
  connections = replicate max_connections blank_connection;
  connection_count = 0;
}

-- The test of find_free_slot.
unfoldable pub is_free_place : Connection → Bool
is_free_place conn = not conn.active

-- The test of find_connection_by_fd.
unfoldable pub is_on : ℕ → Connection → Bool
is_on fd conn = conn.active && conn.fd == fd

-- get_client_ip: `none` where the peer has no IPv4 address.
unfoldable pub peer_ip : Option Text → Text
peer_ip none = codes "unknown"
peer_ip (some ip) = ip

-- The fields that on_open sets.
unfoldable pub connection_of : ℕ → ℕ → Option Text → Connection → Connection
unfolding peer_ip
connection_of fd seconds ip conn = record {
  fd = fd;
  active = true;
  connected_at = seconds % 2 ^ 32;
  last_activity = seconds % 2 ^ 32;
  remote_ip = peer_ip ip;
}

unfoldable pub connect_at : ℕ → ℕ → Option Text → Option ℕ → WsServer → WsServer × Bool
unfolding connection_of
connect_at fd seconds ip none server = (server, false)
connect_at fd seconds ip (some i) server = (
  record server {
    connections = modify server.connections i (connection_of fd seconds ip);
    connection_count = (server.connection_count + 1) % 2 ^ 8;
  },
  true,
)

-- on_open, with whether it returns ESP_OK.
unfoldable pub on_open : ℕ → ℕ → Option Text → WsServer → WsServer × Bool
unfolding connect_at is_free_place
on_open fd seconds ip server =
    if leb max_connections server.connection_count
    then (server, false)
    else connect_at fd seconds ip (find_index is_free_place server.connections) server

unfoldable pub disconnect_at : Option ℕ → WsServer → WsServer
disconnect_at none server = server
disconnect_at (some i) server = record server {
  connections = modify server.connections i (λ conn. blank_connection);
  connection_count = (server.connection_count + 255) % 2 ^ 8;
}

unfoldable pub forget : ℕ → WsServer → WsServer
unfolding disconnect_at is_on
forget fd server = disconnect_at (find_index (is_on fd) server.connections) server

-- on_close, with the disconnect callback of main/local_relay.c.
unfoldable pub on_close : ℕ → WsServer → SubManager → WsServer × SubManager
unfolding forget
on_close fd server subs = (forget fd server, Subs.remove_all fd subs)

unfoldable pub seen_at : ℕ → Option ℕ → WsServer → WsServer
seen_at seconds none server = server
seen_at seconds (some i) server = record server {
  connections =
      modify server.connections i (λ conn. record conn { last_activity = seconds % 2 ^ 32 });
}

-- update_connection_activity.
unfoldable pub update_connection_activity : ℕ → ℕ → WsServer → WsServer
unfolding seen_at is_on
update_connection_activity fd seconds server =
    seen_at seconds (find_index (is_on fd) server.connections) server

-- httpd_ws_type_t, as ws_handler tells them apart.
pub data FrameType : Type 0 where
  text ping pong close other : FrameType

-- What a call of ws_handler for a frame does: the text that it gives to the relay, the type of the
-- frame that it answers with, and whether it returns ESP_OK.
pub record Taken : Type 0 where
  pub server : WsServer
  pub message : Option Text
  pub answer : Option FrameType
  pub ok : Bool

unfoldable pub by_type : FrameType → Text → WsServer → Taken
by_type text payload server = record {
  server = server;
  message = some payload;
  answer = none;
  ok = true;
}
by_type ping payload server = record {
  server = server;
  message = none;
  answer = some pong;
  ok = true;
}
by_type close payload server = record {
  server = server;
  message = none;
  answer = some close;
  ok = false;
}
by_type pong payload server = record { server = server; message = none; answer = none; ok = true }
by_type other payload server = record { server = server; message = none; answer = none; ok = true }

-- ws_handler after the handshake, where the frame is read and the answer is sent.
unfoldable pub ws_handler : ℕ → ℕ → FrameType → Text → WsServer → Taken
unfolding by_type update_connection_activity
ws_handler fd seconds type payload server =
    if length payload == 0
    then record { server = server; message = none; answer = none; ok = true }
    else if ltb max_frame_size (length payload)
    then record { server = server; message = none; answer = none; ok = false }
    else by_type type payload (update_connection_activity fd seconds server)

-- ws_server_broadcast: the descriptors that ws_server_send is called for.
broadcast : WsServer → List ℕ
broadcast server = map (λ conn. conn.fd) (filter (λ conn. conn.active) server.connections)
