-- ===== src/Gate/State.antt =====
-- The state that tollgate_core_session.c, tollgate_core_firewall.c, tollgate_core_dns.c and
-- tollgate_core.c keep in static variables, as one record; what they ask of the platform
-- (tollgate_platform.h) and of the network stack, as the environment of a call.
use tollgate_esp.Prelude.{ℕ, Bool, false, Option, List, [], replicate, Text}
use tollgate_esp.Prelude.Int.{ℤ, pos}

-- tg_payment_method_t.
pub data PaymentMethod : Type 0 where
  cashu mining bytes : PaymentMethod

-- tg_session_t. The numbers are uint32_t, uint64_t and int64_t.
pub record Session : Type 0 where
  pub client_ip : ℕ
  pub mac : Text
  pub allotment_ms : ℕ
  pub start_time_ms : ℤ
  pub allotment_bytes : ℕ
  pub bytes_consumed : ℕ
  pub payment_method : PaymentMethod
  pub active : Bool

-- fw_client_t.
pub record FwClient : Type 0 where
  pub ip : ℕ
  pub mac : Text

-- One entry of the access point's station list, or of the ARP table: an address and six bytes.
pub record Station : Type 0 where
  pub addr : ℕ
  pub eth : List ℕ

-- What the callbacks of tollgate_platform_t that the core calls return now; `none` is a callback
-- that is NULL. `get_mint_url` returns NULL too where it is `none`.
pub record Platform : Type 0 where
  pub get_price_sats : Option ℕ
  pub get_step_ms : Option ℤ
  pub get_mint_url : Option Text
  pub get_metric : Option Text
  pub get_step_bytes : Option ℤ
  pub get_time_ms : Option ℤ
  pub spend_proofs : Option (Text → Bool)

-- What a call sees of the world: the callbacks, the tick counter in milliseconds, the stations
-- that the Wi-Fi driver lists (`none` where one of its two calls fails), and the ARP table.
pub record Env : Type 0 where
  pub platform : Platform
  pub ticks_ms : ℤ
  pub sta_list : Option (List Station)
  pub arp : List Station

-- `clients` is s_clients[0 .. s_client_count), and `auth` is s_auth_list[0 .. s_auth_count).
pub record Gate : Type 0 where
  pub platform_set : Bool
  pub sessions : List Session
  pub session_count : ℕ
  pub clients : List FwClient
  pub auth : List ℕ
  pub ap_ip : ℕ
  pub mining_port : ℕ
  pub owner_connected : Bool
  pub owner_ip : ℕ
  pub owner_mac : List ℕ

-- TG_SESSION_MAX_CLIENTS.
abbrev pub session_max_clients : ℕ
session_max_clients = 10

-- MAX_CLIENTS of the firewall.
abbrev pub max_clients : ℕ
max_clients = 10

-- MAX_AUTH_IPS.
abbrev pub max_auth_ips : ℕ
max_auth_ips = 10

-- A session after memset(…, 0, …).
abbrev pub blank_session : Session
blank_session = record {
  client_ip = 0;
  mac = [];
  allotment_ms = 0;
  start_time_ms = pos 0;
  allotment_bytes = 0;
  bytes_consumed = 0;
  payment_method = cashu;
  active = false;
}

-- The static variables before any call.
abbrev pub boot : Gate
boot = record {
  platform_set = false;
  sessions = replicate session_max_clients blank_session;
  session_count = 0;
  clients = [];
  auth = [];
  ap_ip = 0;
  mining_port = 3333;
  owner_connected = false;
  owner_ip = 0;
  owner_mac = replicate 6 0;
}
