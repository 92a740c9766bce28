-- ===== src/Relay/Subs/Sound.antt =====
-- components/wisp_relay/sub_manager.c: the well-formedness of the table.
use tollgate_esp.Prelude.{
  ℕ, zero, suc, ◌+◌, ◌%◌, ◌≤◌, ◌<◌, ◌≡◌, refl, sym, ◌∙◌, Bool, true, false, Option, none, some,
  List, [], ◌∷◌, leb, ltb, if◌then◌else◌, modify, find_index, count_if, get_elem?, take, length,
  Text, arith, length-modify, count_if-modify, count_if-modify_same, count_if-le,
  count_if-replicate, find_index_hit, count_if-pos, Bool-cases, ==_iff, inl, inr,
}
use tollgate_esp.Relay.Subs.{
  SubFilter, Subscription, SubManager, init, is_named, is_free, is_of, is_active, replaced,
  subscribed, add_free, add_found, add, clear_at, remove_found, remove, remove_at, remove_from,
  remove_all, cleared,
}

unfoldable pub is_long : Subscription → Bool
is_long s = ltb 64 (length s.sub_id)

-- The table has its 64 slots, active_count is the number of active ones, no connection has more
-- than eight, and no id is longer than 64.
pub record IsSound (mgr : SubManager) : Type 0 where
  pub slots : length mgr.subs ≡ 64
  pub counted : mgr.active_count ≡ count_if is_active mgr.subs
  pub shared : (fd : ℕ) → count_if (is_of fd) mgr.subs ≤ 8
  pub short : count_if is_long mgr.subs ≡ 0

length-take_le : (n : ℕ) (xs : Text) → length (take n xs) ≤ n
length-take_le zero xs = omega arith
length-take_le (suc n) [] = omega arith
length-take_le (suc n) (x ∷ xs) = omega (arith, length-take_le n xs)

subscribed-short :
    (fd : ℕ) (id : Text) (fs : List SubFilter) (s : Subscription)
    → is_long (subscribed fd id fs s) ≡ false
unfolding is_long subscribed
subscribed-short fd id fs s = ground (arith, length-take_le 64 id)

pub init-IsSound : IsSound init
unfolding init is_active is_of is_long count_if
init-IsSound = record {
  slots = refl;
  counted = refl;
  shared = λ fd. omega (arith, count_if-replicate (is_of fd) 64 cleared refl);
  short = refl;
}

-- The three counts after a change of one slot.
module _ (mgr : SubManager) (v : IsSound mgr) (i : ℕ) (s : Subscription)
    (f : Subscription → Subscription) where
  change-counts :
      get_elem? mgr.subs i ≡ some s
      → ((p : Subscription → Bool)
          → count_if p (modify mgr.subs i f) + (if p s then 1 else 0)
            ≡ count_if p mgr.subs + (if p (f s) then 1 else 0))
  change-counts at p = count_if-modify p mgr.subs i f s at

add_free-IsSound :
    (fd : ℕ) (id : Text) (fs : List SubFilter) (i : ℕ) (s : Subscription) (mgr : SubManager)
    → IsSound mgr
    → get_elem? mgr.subs i ≡ some s
    → s.active ≡ false
    → count_if (is_of fd) mgr.subs < 8
    → IsSound ((add_free fd id fs (some i) mgr).0)
unfolding add_free is_active is_of
add_free-IsSound fd id fs i s mgr v at free room =
    let new = subscribed fd id fs in
    let change = change-counts mgr v i s new at in
    record {
      slots = length-modify mgr.subs i new ∙ IsSound.slots v;
      counted = ground (
        arith,
        change is_active,
        IsSound.counted v,
        count_if-le is_active mgr.subs,
        IsSound.slots v,
      );
      shared = λ k. ground (arith, change (is_of k), IsSound.shared v k, ==_iff fd k);
      short = ground (arith, change is_long, IsSound.short v, subscribed-short fd id fs s);
    }

clear_at-IsSound :
    (i : ℕ) (s : Subscription) (mgr : SubManager)
    → IsSound mgr
    → get_elem? mgr.subs i ≡ some s
    → s.active ≡ true
    → IsSound (clear_at i mgr)
unfolding clear_at is_active is_of is_long
clear_at-IsSound i s mgr v at on =
    let change = change-counts mgr v i s (λ s. cleared) at in
    record {
      slots = length-modify mgr.subs i (λ s. cleared) ∙ IsSound.slots v;
      counted = ground (
        arith,
        change is_active,
        IsSound.counted v,
        count_if-le is_active mgr.subs,
        IsSound.slots v,
        count_if-pos is_active mgr.subs i s at on,
      );
      shared = λ k. ground (arith, change (is_of k), IsSound.shared v k);
      short = ground (arith, change is_long, IsSound.short v);
    }

free→idle : (s : Subscription) → is_free s ≡ true → s.active ≡ false
unfolding is_free
free→idle s h = ground arith

named→active : (fd : ℕ) (id : Text) (s : Subscription) → is_named fd id s ≡ true → s.active ≡ true
unfolding is_named
named→active fd id s h = ground arith

of→active : (fd : ℕ) (s : Subscription) → is_of fd s ≡ true → s.active ≡ true
unfolding is_of
of→active fd s h = ground arith

-- Fields that the counts do not read may change in a slot.
replaced-IsSound :
    (fs : List SubFilter) (i : ℕ) (mgr : SubManager)
    → IsSound mgr
    → IsSound (record mgr { subs = modify mgr.subs i (replaced fs) })
unfolding replaced is_active is_of is_long
replaced-IsSound fs i mgr v = record {
  slots = length-modify mgr.subs i (replaced fs) ∙ IsSound.slots v;
  counted =
      IsSound.counted v ∙ sym (count_if-modify_same is_active (replaced fs) mgr.subs i (λ s. refl));
  shared = λ k. omega (
    arith,
    IsSound.shared v k,
    count_if-modify_same (is_of k) (replaced fs) mgr.subs i (λ s. refl),
  );
  short = count_if-modify_same is_long (replaced fs) mgr.subs i (λ s. refl) ∙ IsSound.short v;
}

add_free_slot-IsSound :
    (fd : ℕ) (id : Text) (fs : List SubFilter) (mgr : SubManager) (o : Option ℕ)
    → find_index is_free mgr.subs ≡ o
    → IsSound mgr
    → count_if (is_of fd) mgr.subs < 8
    → IsSound ((add_free fd id fs o mgr).0)
unfolding add_free
add_free_slot-IsSound fd id fs mgr none found v room = v
add_free_slot-IsSound fd id fs mgr (some i) found v room =
    let (s, at, free) = find_index_hit is_free mgr.subs i found in
    add_free-IsSound fd id fs i s mgr v at (free→idle s free) room

add_found-IsSound :
    (fd : ℕ) (id : Text) (fs : List SubFilter) (mgr : SubManager) (o : Option ℕ)
    → IsSound mgr
    → IsSound ((add_found fd id fs o mgr).0)
unfolding add_found
add_found-IsSound fd id fs mgr (some i) v = replaced-IsSound fs i mgr v
add_found-IsSound fd id fs mgr none v =
    elim (Bool-cases (leb 8 (count_if (is_of fd) mgr.subs % 256))) [
      | inl full ↦ rw full v
      | inr room ↦ rw room (
          add_free_slot-IsSound fd id fs mgr (find_index is_free mgr.subs) refl v
            (ground (arith, room, IsSound.shared v fd)))
    ]

pub add-IsSound :
    (fd : ℕ) (id : Text) (fs : List SubFilter) (mgr : SubManager)
    → IsSound mgr
    → IsSound ((add fd id fs mgr).0)
unfolding add
add-IsSound fd id fs mgr v = add_found-IsSound fd id fs mgr (find_index (is_named fd id) mgr.subs) v

remove_found-IsSound :
    (fd : ℕ) (id : Text) (mgr : SubManager) (o : Option ℕ)
    → find_index (is_named fd id) mgr.subs ≡ o
    → IsSound mgr
    → IsSound ((remove_found o mgr).0)
unfolding remove_found
remove_found-IsSound fd id mgr none found v = v
remove_found-IsSound fd id mgr (some i) found v =
    let (s, at, named) = find_index_hit (is_named fd id) mgr.subs i found in
    clear_at-IsSound i s mgr v at (named→active fd id s named)

pub remove-IsSound :
    (fd : ℕ) (id : Text) (mgr : SubManager) → IsSound mgr → IsSound ((remove fd id mgr).0)
unfolding remove
remove-IsSound fd id mgr v =
    remove_found-IsSound fd id mgr (find_index (is_named fd id) mgr.subs) refl v

remove_at-IsSound :
    (fd i : ℕ) (mgr : SubManager) (o : Option Subscription)
    → get_elem? mgr.subs i ≡ o
    → IsSound mgr
    → IsSound (remove_at fd i o mgr)
unfolding remove_at
remove_at-IsSound fd i mgr none at v = v
remove_at-IsSound fd i mgr (some s) at v = elim (Bool-cases (is_of fd s)) [
  | inl its ↦ rw its (clear_at-IsSound i s mgr v at (of→active fd s its))
  | inr other ↦ rw other v
]

remove_from-IsSound :
    (fd n i : ℕ) (mgr : SubManager) → IsSound mgr → IsSound (remove_from fd n i mgr)
unfolding remove_from
remove_from-IsSound fd zero i mgr v = v
remove_from-IsSound fd (suc n) i mgr v =
    remove_from-IsSound fd n (suc i) (remove_at fd i (get_elem? mgr.subs i) mgr)
      (remove_at-IsSound fd i mgr (get_elem? mgr.subs i) refl v)

pub remove_all-IsSound : (fd : ℕ) (mgr : SubManager) → IsSound mgr → IsSound (remove_all fd mgr)
unfolding remove_all
remove_all-IsSound fd mgr v = remove_from-IsSound fd 64 0 mgr v
