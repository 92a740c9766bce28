-- ===== src/Relay/Subs/LongIds.antt =====
-- components/wisp_relay/sub_manager.c: ids longer than the field they are kept in.
use tollgate_esp.Prelude.{
  ℕ, ◌<◌, ◌≡◌, refl, ap, false, Option, none, some, Text, List, length, find_index, find_index_hit,
  count_if-zero, text_eq, text_eq→eq, arith, Bool-cases, inl, inr,
}
use tollgate_esp.Relay.Subs.{
  Subscription, SubManager, not_found, init, is_named, remove_found, remove,
}
use tollgate_esp.Relay.Subs.Sound.{IsSound, is_long}
use tollgate_esp.Relay.Subs.Requests.{Request, handled, handled-IsSound}

named-short :
    (fd : ℕ) (id : Text) (s : Subscription)
    → 64 < length id
    → is_long s ≡ false
    → is_named fd id s ≡ false
unfolding is_long is_named
named-short fd id s long short = elim (Bool-cases (text_eq s.sub_id id)) [
  | inl same ↦ absurd (ground (arith, ap length (text_eq→eq s.sub_id id same)))
  | inr other ↦ ground (arith, other)
]

remove-none :
    (fd : ℕ) (id : Text) (mgr : SubManager) (o : Option ℕ)
    → find_index (is_named fd id) mgr.subs ≡ o
    → IsSound mgr
    → 64 < length id
    → remove_found o mgr ≡ (mgr, not_found)
unfolding remove_found
remove-none fd id mgr none found v long = refl
remove-none fd id mgr (some i) found v long =
    let (s, at, named) = find_index_hit (is_named fd id) mgr.subs i found in
    absurd (
      ground (
        arith,
        named,
        named-short fd id s long (count_if-zero is_long mgr.subs i s (IsSound.short v) at),
      ))

-- In every reachable state a CLOSE that names an id of more than 64 bytes removes nothing: the id
-- was cut when it was stored, so it is found again under no such name.
pub remove_long_id :
    (rs : List Request) (fd : ℕ) (id : Text)
    → 64 < length id
    → remove fd id (handled rs init) ≡ (handled rs init, not_found)
unfolding remove
remove_long_id rs fd id long =
    remove-none fd id (handled rs init) (find_index (is_named fd id) (handled rs init).subs) refl
      (handled-IsSound rs) long
