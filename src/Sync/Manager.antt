-- ===== src/Sync/Manager.antt =====
-- main/sync_manager.c: the two kinds of sync, with the store and the selector of the relay.
use tollgate_esp.Prelude.{
  ℕ, ◌%◌, ◌^◌, Bool, true, false, not, Option, none, some, List, [], ◌∷◌, ◌++◌, if◌then◌else◌, take,
  Text, codes, ◌>>=◌,
}
use tollgate_esp.Prelude.Int.{ℤ}
use tollgate_esp.Relay.Outside.{Json}
use tollgate_esp.Relay.Storage.State.{Engine, Outside}
use tollgate_esp.Relay.Handlers.{RelayCtx}
use tollgate_esp.Selector.{RelayInfo, Selector, get_primary, get_fallback, report_disconnect}
use tollgate_esp.Sync.Frames.{ws_target}
use tollgate_esp.Sync.Replies.{Progress, event_ids, take_replies}

-- sync_manager_t without its lock; `none` is a NULL selector.
pub record SyncManager : Type 0 where
  pub selector : Option Selector
  pub running : Bool
  pub sync_in_progress : Bool
  pub last_negentropy_sync : ℕ
  pub last_reqdiff_sync : ℕ

-- The error codes.
pub data SyncError : Type 0 where
  sync_ok no_memory failed invalid_state not_found : SyncError

-- sync_manager_init, with whether the mutex is made.
abbrev pub sync_manager_init : Bool → Option Selector → SyncManager × SyncError
sync_manager_init has_lock selector = (
  record {
    selector = selector;
    running = false;
    sync_in_progress = false;
    last_negentropy_sync = 0;
    last_reqdiff_sync = 0;
  },
  if has_lock then sync_ok else no_memory,
)

-- sync_manager_start and sync_manager_stop, without the task.
sync_manager_start : SyncManager → SyncManager
sync_manager_start mgr = record mgr { running = true }

sync_manager_stop : SyncManager → SyncManager
sync_manager_stop mgr = record mgr { running = false }

-- TLS: whether there is memory for a connection, whether it is made to a host and a port, and
-- whether a read after the upgrade gives something with "101" in the buffer.
pub record Tls : Type 0 where
  pub has_memory : Bool
  pub connects : Text → ℤ → Bool
  pub upgrades : Text → Text → Bool

-- ws_connect.
unfoldable pub ws_connect : Tls → Text → SyncError
unfolding ws_target
ws_connect tls wss_url =
    let t = ws_target wss_url in
    if not tls.has_memory
    then no_memory
    else if not (tls.connects t.host t.port)
    then failed
    else if tls.upgrades t.path t.host
    then sync_ok
    else failed

-- What is left of a sync: the manager, the messages that went out, and the error code.
pub record Synced : Type 0 where
  pub manager : SyncManager
  pub messages : List Text
  pub err : SyncError

unfoldable pub lost : Text → Selector → SyncManager → SyncManager
lost url sel mgr = record mgr { selector = some (report_disconnect url sel) }

-- snprintf into sub_msg[256]. `print_ids` is the object with the member "ids", as cJSON prints it.
unfoldable pub diff_message : (List Text → Text) → List Text → Text
diff_message print_ids ids =
    take 255 (codes "[\"REQ\",\"sync_diff\"," ++ print_ids ids ++ codes "]")

-- What follows the test of the primary; the answer is read and dropped.
unfoldable pub negentropy_with :
    (List Text → Text) → Tls → ℕ → List Text → RelayInfo → Selector → SyncManager → Synced
unfolding lost diff_message
negentropy_with print_ids tls seconds [] primary sel mgr = record {
  manager = mgr;
  messages = [];
  err = sync_ok;
}
negentropy_with print_ids tls seconds (id ∷ ids) primary sel mgr =
    elim (ws_connect tls primary.url) [
      | sync_ok ↦ record {
        manager = record mgr { last_negentropy_sync = seconds % 2 ^ 32 };
        messages = diff_message print_ids (id ∷ ids) ∷ [];
        err = sync_ok;
      }
      | e ↦ record { manager = lost primary.url sel mgr; messages = []; err = e }
    ]

-- `!relay || !relay->alive`.
unfoldable pub if_alive : Option RelayInfo → Option RelayInfo
if_alive none = none
if_alive (some r) = if r.alive then some r else none

unfoldable pub released : Synced → Synced
released s = record s { manager = record s.manager { sync_in_progress = false } }

-- sync_manager_do_negentropy_sync.
unfoldable pub do_negentropy_sync :
    Json → (List Text → Text) → Tls → ℕ → Outside → Engine → SyncManager → Synced
unfolding negentropy_with if_alive released event_ids get_primary
do_negentropy_sync J print_ids tls seconds out engine mgr = elim mgr.selector [
  | none ↦ record { manager = mgr; messages = []; err = invalid_state }
  | some sel ↦
      let busy = record mgr { sync_in_progress = true } in
      released (elim (if_alive (get_primary sel)) [
        | none ↦ record { manager = busy; messages = []; err = not_found }
        | some primary ↦
            negentropy_with print_ids tls seconds (event_ids J out engine) primary sel busy
      ])
]

-- snprintf into sub_msg[512].
unfoldable pub fallback_message : Text → Text
fallback_message npub =
    take 511
      (codes "[\"REQ\",\"sync_fallback\",{\"authors\":[\"" ++ npub ++ codes "\"],\"limit\":500}]")

-- The parts of sync_manager_do_reqdiff_sync; the second of a pair is the relay and the counts that the
-- function logs.
module _ (J : Json) (npub : Text) (tls : Tls) (seconds : ℕ) (replies : List (Outside × Text)) where
  unfoldable pub idle : RelayCtx → Progress J
  idle ctx = record { relay = ctx; events_received = 0; events_stored = 0; sent = [] }

  unfoldable pub stops : RelayCtx → SyncManager → SyncError → Option (Synced × Progress J)
  unfolding idle
  stops ctx mgr err = some (record { manager = mgr; messages = []; err = err }, idle ctx)

  unfoldable pub ended : SyncManager → Synced
  unfolding fallback_message
  ended mgr = record {
    manager = record mgr { last_reqdiff_sync = seconds % 2 ^ 32 };
    messages = fallback_message npub ∷ [];
    err = sync_ok;
  }

  -- What follows the call of ws_connect, by its result.
  unfoldable pub after_connect :
      List Text
      → RelayCtx
      → RelayInfo
      → Selector
      → SyncManager
      → SyncError
      → Option (Synced × Progress J)
  unfolding lost take_replies stops idle ended
  after_connect ids ctx fallback sel mgr sync_ok =
      take_replies J ids replies (idle ctx) >>= λ p. some (ended mgr, p)
  after_connect ids ctx fallback sel mgr e = stops ctx (lost fallback.url sel mgr) e

  unfoldable pub reqdiff_with :
      List Text
      → RelayCtx
      → SyncManager
      → Selector
      → Option RelayInfo
      → Option (Synced × Progress J)
  unfolding stops after_connect
  reqdiff_with ids ctx mgr sel none = stops ctx mgr not_found
  reqdiff_with ids ctx mgr sel (some fallback) =
      after_connect ids ctx fallback sel mgr (ws_connect tls fallback.url)

  -- sync_manager_do_reqdiff_sync.
  unfoldable pub do_reqdiff_sync : Outside → RelayCtx → SyncManager → Option (Synced × Progress J)
  unfolding stops if_alive event_ids get_fallback reqdiff_with
  do_reqdiff_sync out ctx mgr = elim mgr.selector [
    | none ↦ stops ctx mgr invalid_state
    | some sel ↦
        reqdiff_with (event_ids J out ctx.storage) ctx mgr sel (if_alive (get_fallback 0 sel))
  ]
