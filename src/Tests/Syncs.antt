-- ===== src/Tests/Syncs.antt =====
-- The theorems on the synchronisation with public relays at concrete inputs.
use tollgate_esp.Prelude.{
  ℕ, zero, suc, ◌≡◌, refl, ap, subst, true, false, none, some, List, [], ◌∷◌, ◌++◌, ◌==◌, ltb, map,
  get_elem?, length, replicate, if◌then◌else◌, Option, Text, codes, text_eq, arith,
}
use tollgate_esp.Prelude.Int.{pos}
use tollgate_esp.Ehash.Packet.{byte_at}
use tollgate_esp.Relay.Outside.{Json}
use tollgate_esp.Relay.Handlers.{RelayCtx}
use tollgate_esp.Relay.Local.{local_relay_init}
use tollgate_esp.Relay.Storage.Upkeep.{nvs_missing}
use tollgate_esp.Selector.{RelayInfo, Selector}
use tollgate_esp.Sync.Frames.{Conn, taken_text, ws_read_text, ws_send_text}
use tollgate_esp.Sync.Reading.{ws_read_text-ws_send_text}
use tollgate_esp.Sync.Manager.{SyncManager, Tls, sync_manager_init, do_reqdiff_sync}
use tollgate_esp.Sync.Ignored.{HaveSameHead, Pair, left, right, do_reqdiff_sync_same}
use tollgate_esp.Tests.Stored.{nothing_saved, outside}

abbrev eose : Text
eose = codes "[\"EOSE\"]"

abbrev whole_records : ℕ → ℕ
whole_records i = 16384

abbrev incoming : List ℕ
incoming = ws_send_text eose ++ (0x88 ∷ 0 ∷ [])

ws_read_text-ws_send_text_example :
    (after : Conn) × (ws_read_text
        (replicate 20 0)
        (record { incoming = incoming; gives = whole_records })
      ≡ taken_text (length eose) (pos (length eose)) eose after)
    × (after.incoming ≡ 0x88 ∷ 0 ∷ [])
ws_read_text-ws_send_text_example =
    ws_read_text-ws_send_text 16384 eose (0x88 ∷ 0 ∷ []) (replicate 20 0) whole_records
      (omega arith) (omega arith) (λ i. omega arith) (omega arith) (omega arith)

-- A read of the payload that gives three bytes: the rest of the text is what the buffer had.
short_read :
    (after : Conn) × (ws_read_text
        (replicate 20 b'x')
        (record { incoming = incoming; gives = λ i. if i == 0 then 2 else 3 })
      ≡ taken_text 8 (pos 8) (codes "[\"Exxxxx") after)
unfolding ws_read_text ws_send_text byte_at
short_read = (_, refl)

-- Two messages, ["EVENT", "sync_fallback", event] with two events.
abbrev parsed_as : Text → Option ℕ
parsed_as s =
    if text_eq s (codes "a") then some 10 else if text_eq s (codes "b") then some 11 else none

abbrev item_of : ℕ → ℕ → Option ℕ
item_of arr i =
    if i == 0 then some 1 else if i == 1 then some 2 else if arr == 10 then some 3 else some 4

abbrev messages : Json
messages = record {
  Node = ℕ;
  Double = ℕ;
  parse = parsed_as;
  get_object_item = λ node name. if ltb node 3 then none else some 5;
  is_array = λ node. ltb 9 node;
  is_string = λ node. ltb node 3;
  array_size = λ node. 3;
  array_item = item_of;
  valuestring = λ node. if node == 1 then some (codes "EVENT") else some (codes "sync_fallback");
  valueint = λ node. pos 1;
  valuedouble = λ node. 0;
  to_uint64 = λ d. d;
  to_int64 = λ d. pos d;
  print = λ node. if node == 2 then codes "\"sync_fallback\"" else [];
  print_serial = λ pubkey created kind tags content. [];
}

abbrev public_relay : RelayInfo
public_relay = record {
  url = codes "wss://b";
  name = [];
  latency_ms = 20;
  supports_nip77 = false;
  alive = true;
  consecutive_failures = 0;
  supported_nips = [];
}

abbrev selector : Selector
selector = record {
  relays = public_relay ∷ [];
  primary_idx = none;
  fallback_idx = some 0;
  last_full_probe = 0;
}

abbrev tls : Tls
tls = record { has_memory = true; connects = λ host port. true; upgrades = λ path host. true }

abbrev relay : RelayCtx
relay = local_relay_init nvs_missing true (λ p. none) nothing_saved

abbrev manager : SyncManager
manager = (sync_manager_init true (some selector)).0

abbrev answers : List Pair
answers = (outside, codes "a", codes "b") ∷ []

pair_of : Option Pair → Pair
pair_of none = (outside, [], [])
pair_of (some q) = q

same_heads : (i : ℕ) (q : Pair) → get_elem? answers i ≡ some q → HaveSameHead messages (q.1) (q.2)
unfolding text_eq pair_of
same_heads zero q here =
    subst (λ (r : Pair). HaveSameHead messages (r.1) (r.2)) (ap pair_of here)
      (10, 11, refl, refl, refl, refl)
same_heads (suc i) q here = absurd (ground (arith, here))

do_reqdiff_sync_same_example :
    do_reqdiff_sync messages (codes "npub") tls 90 (map left answers) outside relay manager
    ≡ do_reqdiff_sync messages (codes "npub") tls 90 (map right answers) outside relay manager
do_reqdiff_sync_same_example =
    do_reqdiff_sync_same messages (codes "npub") tls 90 answers outside relay manager same_heads
