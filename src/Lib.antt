-- ===== src/Lib.antt =====
-- Verification of the TollGate firmware: a Wi-Fi access point that sells network access for Cashu
-- tokens, with a Nostr relay, a market of other gates and a touch panel beside it.
--
-- The gate. A client pays with a token (tollgate_core_process_payment), which makes or extends a
-- session; a session grants the client's address in the firewall's table, which lists it with the
-- resolver; a regular tick ends the sessions that have run out. The static variables of these
-- files are one record, Gate.State.Gate, that every operation takes and returns; what they ask of
-- the platform and of the network stack is a record Env, the environment of one call.
--   Gate/State       the state, and the constants (tollgate_core_session.h, tollgate_platform.h)
--   Gate/Auth        is_authenticated and dns_set_authenticated (tollgate_core_dns.c)
--   Gate/Firewall    grant, revoke and the lookups (tollgate_core_firewall.c)
--   Gate/Session     create, create_bytes, extend, revoke, tick (tollgate_core_session.c)
--   Gate/Filter      is_sandbox_allowed and canforward_filter (tollgate_core_firewall.c)
--   Gate/Owner       core_init, client_connected and client_disconnected (tollgate_core.c)
--   Gate/Invariant   IsSound and IsPaidOnly; Grants, Slots, Opening, Upkeep, Creation, Tick,
--                    Results and Refusals carry them through the operations
--   Payment/Token    decoding and proof states (tollgate_core_cashu.c)
--   Payment/Process  tollgate_core_process_payment (tollgate_core.c)
--   System/Calls     the calls that the handlers of main/captive_portal.c, main/tollgate_api.c and
--                    the Wi-Fi events make, as sequences; System/Startup is tollgate_core_init after some
--                    of them, as main/tollgate_main.c has it
-- All of the gate's sources are in components/tollgate_core/src, unless another path is given.
--
-- The other parts keep a state of their own.
--   Mints            components/tollgate_core/src/tollgate_core_mint_health.c, main/mint_health.c
--   Ehash            components/ehash_relay/src/ehash_relay.c: packets of the LoRa relay
--   Relay/Subs       components/wisp_relay/sub_manager.c: the relay's subscriptions
--   Relay/Limiter    components/wisp_relay/rate_limiter.c: its rate limits
--   Relay/Storage    components/wisp_relay/storage_engine.c: the index of the stored events, their
--                    files, and the copy of the index in NVS; Relay/Scan is relay_types.c
--   Relay/Validator, Relay/Deletion, Relay/Handlers, Relay/Router and Relay/Local
--                    relay_validator.c, deletion.c, handlers.c with broadcaster.c, and router.c of
--                    components/wisp_relay, and main/local_relay.c: what a message of a client does
--                    to the storage and the subscriptions, and what is sent
--   Relay/Connections  components/wisp_relay/ws_server.c: the table of the websocket connections, and
--                    what a frame does
--   Dns              a round of dns_server_task of tollgate_core_dns.c, on the bytes of a datagram
--   Market           components/tollgate_core/src/tollgate_core_market.c: offers of other gates;
--                    Market/Beacon is tollgate_core_beacon.c
--   Client           components/tollgate_core/src/tollgate_core_client.c and main/tollgate_client.c: the
--                    client of an upstream gate; Client/Usage is the usage of a session that
--                    tollgate_core_portal.c prints
--   Mining           components/tollgate_core/src/tollgate_core_mining.c: the table of the miners and the
--                    difficulty; double and the undefined shifts are arguments
--   Selector         main/relay_selector.c: the choice of the public relays
--   Sync             main/sync_manager.c: the exchange of events with the public relays, and the
--                    websocket frames it reads and writes; TLS is an argument, and a read may be short
--   Panel            main/wifi_setup.c and main/keyboard.c
--   Prelude          arrays as lists, texts as lists of bytes, signed integers, Boolean tests
--   Tests            every result at a concrete input
--
-- Conventions. Numbers are the native ones; a machine word keeps its wrap-around as a remainder,
-- and a pointer into a table is an index. NULL is `none`. A loop over an array of constant length
-- is a recursion on the number of rounds left, which starts at that length, and the loop over the
-- labels of a DNS question has a round for each byte of the datagram. The reading of a DNS name is
-- the one loop on fuel, since it need not end. A time is an unbounded integer, and a uint64_t is
-- cast to int64_t where the source does. The session counter is a natural number: it goes down
-- only for a session that was counted. A packet is the fields that the filter reads.
--
-- Parameters. cJSON, base64, SHA-256 and the mint's answer are arguments of the payment code
-- (Payment/Outside), and cJSON, SHA-256 and secp256k1 of the relay (Relay/Outside); the answers to probes are an
-- argument of Mints/Probes, and the replies that Client/Machine meets are a record World. The callbacks of the
-- platform are functions that do not change the gate, and get_metric, where it is set, gives a text.
-- What NVS stores, what the file system takes, and how many bytes a read of a TLS connection gives are
-- arguments too (Relay/Storage/State, Sync/Frames), since the code goes on when they fail.
--
-- Not modelled: log output, the switch of NAPT, tasks and mutexes (a call is one step), failures of
-- malloc and strdup, uses of freed memory, sockets and HTTP, JSON and HTML that is written, the arithmetic of double,
-- the sessions of the mining protocol, drivers, drawing, and the vendored libraries.
pub mod Prelude
pub mod Gate
pub mod Payment
pub mod System
pub mod Mints
pub mod Ehash
pub mod Relay
pub mod Market
pub mod Panel
pub mod Tests
pub mod Dns
pub mod Client
pub mod Selector
pub mod Sync
pub mod Mining
