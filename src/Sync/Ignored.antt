-- ===== src/Sync/Ignored.antt =====
-- main/sync_manager.c: what a sync with a fallback relay takes from the messages ["EVENT", id, event].
use tollgate_esp.Prelude.{
  ℕ, suc, ◌≡◌, refl, sym, ap, ◌∙◌, inl, inr, ◌⊎◌, Option, none, some, List, [], ◌∷◌, map, get_elem?,
  Option-cases, if◌then◌else◌, Text, ◌>>=◌,
}
use mathlib.Core.Path.{fun_ext}
use tollgate_esp.Relay.Outside.{Json}
use tollgate_esp.Relay.Storage.State.{Outside}
use tollgate_esp.Relay.Handlers.{RelayCtx}
use tollgate_esp.Selector.{RelayInfo, Selector, get_fallback}
use tollgate_esp.Sync.Replies.{
  Progress, Reply, ignored, with_event, end_of_stored, event_ids, named, reply_of, take_event,
  take_replies,
}
use tollgate_esp.Sync.Manager.{
  SyncError, SyncManager, Synced, Tls, sync_ok, no_memory, failed, invalid_state, not_found,
  after_connect, do_reqdiff_sync, ended, idle, if_alive, reqdiff_with, stops,
}

-- Two answers to one read: what the store meets then, and the texts.
abbrev pub Pair : Type 0
Pair = Outside × Text × Text

abbrev pub left : Pair → Outside × Text
left p = (p.0, p.1)

abbrev pub right : Pair → Outside × Text
right p = (p.0, p.2)

module _ (J : Json) where
  -- Two texts with arrays that have the same items 0 and 1.
  abbrev pub HaveSameHead : Text → Text → Type 0
  HaveSameHead a b =
      (x : Json.Node J) × (y : Json.Node J) × (J.parse a ≡ some x)
      × (J.parse b ≡ some y)
      × (J.array_item x 0 ≡ J.array_item y 0)
      × (J.array_item x 1 ≡ J.array_item y 1)

  named_same :
      (x y : Json.Node J) (o : Option Text)
      → J.array_item x 1 ≡ J.array_item y 1
      → named J x o ≡ named J y o
  unfolding named
  named_same x y none same = refl
  named_same x y (some name) same = rw same refl

  reply_of_head :
      (a : Text) (x : Json.Node J) (head : Option (Json.Node J))
      → J.parse a ≡ some x
      → J.array_item x 0 ≡ head
      → reply_of J a ≡ elim head [
        | none ↦ ignored
        | some cmd ↦ if J.is_string cmd then named J x (J.valuestring cmd) else ignored
      ]
  unfolding reply_of
  reply_of_head a x head is_array here = rw (reply_of, is_array, here) refl

  reply_of_same : (a b : Text) → HaveSameHead a b → reply_of J a ≡ reply_of J b
  reply_of_same a b (x, y, is_x, is_y, same_0, same_1) = elim (Option-cases (J.array_item y 0)) [
    | inl n ↦ reply_of_head a x none is_x (same_0 ∙ n) ∙ sym (reply_of_head b y none is_y n)
    | inr (cmd, s) ↦
        reply_of_head a x (some cmd) is_x (same_0 ∙ s)
        ∙ ap (λ (r : Reply J). if J.is_string cmd then r else ignored)
            (named_same x y (J.valuestring cmd) same_1)
        ∙ sym (reply_of_head b y (some cmd) is_y s)
  ]

  Reply-cases :
      (o : Reply J)
      → (o ≡ ignored) ⊎ (((obj : Json.Node J) × (o ≡ with_event obj)) ⊎ (o ≡ end_of_stored))
  Reply-cases ignored = inl refl
  Reply-cases (with_event obj) = inr (inl (obj, refl))
  Reply-cases end_of_stored = inr (inr refl)

  module _ (ids : List Text) where
    module _ (r : Outside × Text) (rs : List (Outside × Text)) (p : Progress J) where
      take_replies_ignored :
          reply_of J (r.1) ≡ ignored → take_replies J ids (r ∷ rs) p ≡ take_replies J ids rs p
      unfolding take_replies
      take_replies_ignored h = rw (h, take_replies) refl

      take_replies_event :
          (obj : Json.Node J)
          → reply_of J (r.1) ≡ with_event obj
          → take_replies J ids (r ∷ rs) p
            ≡ (take_event J ids (r.0) obj p >>= λ q. take_replies J ids rs q)
      unfolding take_replies
      take_replies_event obj h = rw (h, take_replies) refl

      take_replies_end : reply_of J (r.1) ≡ end_of_stored → take_replies J ids (r ∷ rs) p ≡ some p
      unfolding take_replies
      take_replies_end h = rw (h, take_replies) refl

    take_replies_same :
        (ps : List Pair) (p : Progress J)
        → ((i : ℕ) (q : Pair) → get_elem? ps i ≡ some q → HaveSameHead (q.1) (q.2))
        → take_replies J ids (map left ps) p ≡ take_replies J ids (map right ps) p
    take_replies_same [] p same = refl
    take_replies_same (q ∷ qs) p same =
        let ls = map left qs in
        let rs = map right qs in
        let rest : (t : Progress J) → take_replies J ids ls t ≡ take_replies J ids rs t =
          λ t. take_replies_same qs t (λ i. same (suc i)) in
        let heads : reply_of J (q.1) ≡ reply_of J (q.2) =
          reply_of_same (q.1) (q.2) (same 0 q refl) in
        elim (Reply-cases (reply_of J (q.2))) [
          | inl h ↦
              take_replies_ignored (left q) ls p (heads ∙ h)
              ∙ rest p
              ∙ sym (take_replies_ignored (right q) rs p h)
          | inr (inl (obj, h)) ↦
              take_replies_event (left q) ls p obj (heads ∙ h)
              ∙ ap (λ (k : Progress J → Option (Progress J)). take_event J ids (q.0) obj p >>= k)
                  (fun_ext rest)
              ∙ sym (take_replies_event (right q) rs p obj h)
          | inr (inr h) ↦
              take_replies_end (left q) ls p (heads ∙ h) ∙ sym (take_replies_end (right q) rs p h)
        ]

module _ (J : Json) (npub : Text) (tls : Tls) (seconds : ℕ) (ps : List Pair)
    (same : (i : ℕ) (q : Pair) → get_elem? ps i ≡ some q → HaveSameHead J (q.1) (q.2)) where
  after_connect_same :
      (ids : List Text) (ctx : RelayCtx) (fallback : RelayInfo) (sel : Selector) (mgr : SyncManager)
      (err : SyncError)
      → after_connect J npub tls seconds (map left ps) ids ctx fallback sel mgr err
        ≡ after_connect J npub tls seconds (map right ps) ids ctx fallback sel mgr err
  unfolding after_connect stops idle ended
  after_connect_same ids ctx fallback sel mgr sync_ok =
      ap (λ o. o >>= λ p. some (ended J npub tls seconds (map left ps) mgr, p))
        (take_replies_same J ids ps (idle J npub tls seconds (map left ps) ctx) same)
  after_connect_same ids ctx fallback sel mgr no_memory = refl
  after_connect_same ids ctx fallback sel mgr failed = refl
  after_connect_same ids ctx fallback sel mgr invalid_state = refl
  after_connect_same ids ctx fallback sel mgr not_found = refl

  reqdiff_with_same :
      (ids : List Text) (ctx : RelayCtx) (mgr : SyncManager) (sel : Selector) (o : Option RelayInfo)
      → reqdiff_with J npub tls seconds (map left ps) ids ctx mgr sel o
        ≡ reqdiff_with J npub tls seconds (map right ps) ids ctx mgr sel o
  unfolding reqdiff_with stops idle
  reqdiff_with_same ids ctx mgr sel none = refl
  reqdiff_with_same ids ctx mgr sel (some fallback) = after_connect_same ids ctx fallback sel mgr _

-- A sync with a fallback relay gives the same result for two runs of answers whose texts are, one by
-- one, arrays with the same items 0 and 1: so the event that a relay sends, item 2 of
-- ["EVENT", subscription, event], has no effect on the store, the clients or the manager.
pub do_reqdiff_sync_same :
    (J : Json) (npub : Text) (tls : Tls) (seconds : ℕ) (ps : List Pair) (out : Outside)
    (ctx : RelayCtx) (mgr : SyncManager)
    → ((i : ℕ) (q : Pair) → get_elem? ps i ≡ some q → HaveSameHead J (q.1) (q.2))
    → do_reqdiff_sync J npub tls seconds (map left ps) out ctx mgr
      ≡ do_reqdiff_sync J npub tls seconds (map right ps) out ctx mgr
unfolding do_reqdiff_sync stops idle
do_reqdiff_sync_same J npub tls seconds ps out ctx mgr same = by_selector mgr.selector
  where
    with : List (Outside × Text) → Option Selector → Option (Synced × Progress J)
    with rs o = elim o [
      | none ↦ stops J npub tls seconds rs ctx mgr invalid_state
      | some sel ↦
          reqdiff_with J npub tls seconds rs (event_ids J out ctx.storage) ctx mgr sel
            (if_alive (get_fallback 0 sel))
    ]

    by_selector : (o : Option Selector) → with (map left ps) o ≡ with (map right ps) o
    by_selector none = refl
    by_selector (some sel) =
        reqdiff_with_same J npub tls seconds ps same (event_ids J out ctx.storage) ctx mgr sel
          (if_alive (get_fallback 0 sel))
