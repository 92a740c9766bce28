-- ===== src/Relay/Subs/Requests.antt =====
-- components/wisp_relay: sequences of REQ, CLOSE and disconnections, as the relay's handlers and
-- router pass them to the subscription manager.
use tollgate_esp.Prelude.{
  ℕ, ◌≤◌, ◌≡◌, refl, Bool, List, [], ◌∷◌, Text, length, count_if, count_if-le, arith,
}
use tollgate_esp.Prelude.Int.{ℤ}
use tollgate_esp.Relay.Subs.{
  SubFilter, Subscription, SubManager, init, add, remove, remove_all, is_match, collect, match_json,
}
use tollgate_esp.Relay.Subs.Sound.{
  IsSound, init-IsSound, add-IsSound, remove-IsSound, remove_all-IsSound,
}

pub data Request : Type 0 where
  subscribe : ℕ → Text → List SubFilter → Request
  close : ℕ → Text → Request
  disconnect : ℕ → Request

pub handle : Request → SubManager → SubManager
handle (subscribe fd id fs) mgr = (add fd id fs mgr).0
handle (close fd id) mgr = (remove fd id mgr).0
handle (disconnect fd) mgr = remove_all fd mgr

pub handled : List Request → SubManager → SubManager
handled [] mgr = mgr
handled (r ∷ rs) mgr = handled rs (handle r mgr)

handle-IsSound : (r : Request) (mgr : SubManager) → IsSound mgr → IsSound (handle r mgr)
unfolding handle
handle-IsSound (subscribe fd id fs) mgr v = add-IsSound fd id fs mgr v
handle-IsSound (close fd id) mgr v = remove-IsSound fd id mgr v
handle-IsSound (disconnect fd) mgr v = remove_all-IsSound fd mgr v

handled-from : (rs : List Request) (mgr : SubManager) → IsSound mgr → IsSound (handled rs mgr)
unfolding handled
handled-from [] mgr v = v
handled-from (r ∷ rs) mgr v = handled-from rs (handle r mgr) (handle-IsSound r mgr v)

-- After any sequence of subscriptions, removals and disconnections from the start, the table has
-- its 64 slots, active_count is the number of active ones, no connection has more than eight, and
-- no stored id is longer than 64 bytes.
pub handled-IsSound : (rs : List Request) → IsSound (handled rs init)
handled-IsSound rs = handled-from rs init init-IsSound

length-collect :
    (p : Subscription → Bool) (ss : List Subscription) → length (collect p ss) ≡ count_if p ss
unfolding collect count_if
length-collect p [] = refl
length-collect p (s ∷ ss) = ground (arith, length-collect p ss)

-- In every reachable state an event matches as many subscriptions as pass the test, and the result
-- fits the array of 64 entries that it is written to.
pub match_json_fits :
    (rs : List Request) (kind : ℤ) (pubkey : Text) (created_at : ℕ)
    → (length (match_json kind pubkey created_at (handled rs init))
        ≡ count_if (is_match kind pubkey created_at) (handled rs init).subs)
      × (length (match_json kind pubkey created_at (handled rs init)) ≤ 64)
unfolding match_json
match_json_fits rs kind pubkey created_at =
    let mgr = handled rs init in
    let same = length-collect (is_match kind pubkey created_at) mgr.subs in
    (
      same,
      omega (
        arith,
        same,
        count_if-le (is_match kind pubkey created_at) mgr.subs,
        IsSound.slots (handled-IsSound rs),
      ),
    )
