-- ===== src/Panel/Selection.antt =====
-- main/wifi_setup.c: sequences of calls, and the selected network.
use tollgate_esp.Prelude.{
  ℕ, ◌<◌, ◌≡◌, refl, Bool, true, false, Option, none, some, List, [], ◌∷◌, if◌then◌else◌, take,
  length, get_elem?, get_elem?-exists, Text, arith, ap,
}
use tollgate_esp.Prelude.Int.{ℤ, pos, negsuc}
use tollgate_esp.Payment.Token.{c_str}
use tollgate_esp.Panel.WifiSetup.{
  SetupState, list, password, connecting, success, failed, ApInfo, WifiSetup, init, set_aps,
  visible_count, in_view, ssid_at, select_at, when_list, when_password, when_connecting,
  when_failed, handle_select, handle_connect, connected, refused, handle_connect_result,
  handle_cancel, handle_retry, handle_change_network,
}

-- The calls that the panel and the network make.
pub data Event : Type 0 where
  scanned : List ApInfo → Event
  select : ℤ → Event
  connect : Event
  result : Bool → Option Text → Event
  cancel : Event
  retry : Event
  change_network : Event

unfoldable pub handle : Event → WifiSetup → WifiSetup
handle (scanned aps) s = set_aps aps s
handle (select i) s = handle_select i s
handle connect s = handle_connect s
handle (result ok ip) s = handle_connect_result ok ip s
handle cancel s = handle_cancel s
handle retry s = handle_retry s
handle change_network s = handle_change_network s

unfoldable pub after : List Event → WifiSetup → WifiSetup
after [] s = s
after (e ∷ es) s = after es (handle e s)

-- The states in which a network is selected.
unfoldable pub is_past_list : SetupState → Bool
is_past_list password = true
is_past_list connecting = true
is_past_list success = true
is_past_list failed = true
is_past_list _ = false

-- The selection is an entry of the list, and the name kept is its name, up to 32 bytes.
pub record Selected (s : WifiSetup) : Type 0 where
  index : ℕ
  info : ApInfo
  at : s.selected_ap ≡ some index
  there : get_elem? s.aps index ≡ some info
  name : s.selected_ssid ≡ c_str (take 32 info.ssid)

data Sound (s : WifiSetup) : Type 0 where
  early : is_past_list s.state ≡ false → Sound s
  late : Selected s → Sound s

in_view-lt : (i : ℤ) (k : ℕ) (s : WifiSetup) → in_view i s ≡ some k → k < length s.aps
unfolding in_view visible_count
in_view-lt (negsuc i) k s h = absurd (ground arith)
in_view-lt (pos i) k s h = ground arith

select_at-Sound :
    (o : Option ℕ) (s : WifiSetup)
    → ((k : ℕ) → o ≡ some k → k < length s.aps)
    → Sound s
    → Sound (select_at o s)
unfolding select_at ssid_at
select_at-Sound none s inside v = v
select_at-Sound (some k) s inside v =
    let (info, there) = get_elem?-exists s.aps k (inside k refl) in
    late (record { index = k; info = info; at = refl; there = there; name = rw there refl })

-- A handler that waits for one state does nothing in the others.
when_list-Sound : (st : SetupState) (s t : WifiSetup) → Sound s → Sound t → Sound (when_list st s t)
unfolding when_list
when_list-Sound list s t v w = w
when_list-Sound _ s t v w = v

past-Selected : (s : WifiSetup) → is_past_list s.state ≡ true → Sound s → Selected s
past-Selected s past (early before) = absurd (ground arith)
past-Selected s past (late k) = k

when_password-Sound :
    (st : SetupState) (s t : WifiSetup)
    → s.state ≡ st
    → Sound s
    → (Selected s → Sound t)
    → Sound (when_password st s t)
unfolding when_password is_past_list
when_password-Sound password s t is v w = w (past-Selected s (ap is_past_list is) v)
when_password-Sound _ s t is v w = v

when_connecting-Sound :
    (st : SetupState) (s t : WifiSetup)
    → s.state ≡ st
    → Sound s
    → (Selected s → Sound t)
    → Sound (when_connecting st s t)
unfolding when_connecting is_past_list
when_connecting-Sound connecting s t is v w = w (past-Selected s (ap is_past_list is) v)
when_connecting-Sound _ s t is v w = v

when_failed-Sound :
    (st : SetupState) (s t : WifiSetup)
    → s.state ≡ st
    → Sound s
    → (Selected s → Sound t)
    → Sound (when_failed st s t)
unfolding when_failed is_past_list
when_failed-Sound failed s t is v w = w (past-Selected s (ap is_past_list is) v)
when_failed-Sound _ s t is v w = v

-- What the handlers change leaves a selection as it is.
same-Selected :
    (st : SetupState) (ip : Text) (auth : Bool) (s : WifiSetup)
    → Selected s
    → Selected (record s { state = st; connect_ip = ip; connect_failed_auth = auth })
same-Selected st ip auth s k = record {
  index = Selected.index k;
  info = Selected.info k;
  at = Selected.at k;
  there = Selected.there k;
  name = Selected.name k;
}

result-Sound :
    (ok : Bool) (ip : Option Text) (s : WifiSetup)
    → Selected s
    → Sound (if ok then connected ip s else refused s)
unfolding connected refused
result-Sound true none s k = late (same-Selected success s.connect_ip false s k)
result-Sound true (some ip) s k = late (same-Selected success (c_str (take 15 ip)) false s k)
result-Sound false ip s k = late (same-Selected failed [] true s k)

handle-Sound : (e : Event) (s : WifiSetup) → Sound s → Sound (handle e s)
unfolding handle set_aps handle_select handle_connect handle_connect_result handle_cancel
    handle_retry handle_change_network is_past_list
handle-Sound (scanned aps) s v = early refl
handle-Sound (select i) s v =
    when_list-Sound s.state s (select_at (in_view i s) s) v
      (select_at-Sound (in_view i s) s (λ k h. in_view-lt i k s h) v)
handle-Sound connect s v =
    when_password-Sound s.state s (record s { state = connecting }) refl v
      (λ k. late (same-Selected connecting s.connect_ip s.connect_failed_auth s k))
handle-Sound (result ok ip) s v =
    when_connecting-Sound s.state s (if ok then connected ip s else refused s) refl v
      (result-Sound ok ip s)
handle-Sound cancel s v = early refl
handle-Sound retry s v =
    when_failed-Sound s.state s (record s { state = password; connect_failed_auth = false }) refl v
      (λ k. late (same-Selected password s.connect_ip false s k))
handle-Sound change_network s v =
    when_failed-Sound s.state s (record s { state = list; connect_failed_auth = false }) refl v
      (λ k. early refl)

after-Sound : (es : List Event) (s : WifiSetup) → Sound s → Sound (after es s)
unfolding after
after-Sound [] s v = v
after-Sound (e ∷ es) s v = after-Sound es (handle e s) (handle-Sound e s v)

-- Whatever the panel and the network did, in a state from the password on, failure and success
-- included, the selected index is one of the list, and the name that is kept is its entry's.
pub after-Selected :
    (es : List Event) → is_past_list (after es init).state ≡ true → Selected (after es init)
unfolding init is_past_list
after-Selected es past = past-Selected (after es init) past (after-Sound es init (early refl))
