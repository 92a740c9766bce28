-- ===== src/Panel/WifiSetup.antt =====
-- main/wifi_setup.c: the dialogue that joins a network.
use tollgate_esp.Prelude.{
  ℕ, ◌+◌, ◌-◌, Bool, true, false, Option, none, some, List, [], ltb, if◌then◌else◌, take, length,
  get_elem?, Text,
}
use tollgate_esp.Prelude.Int.{ℤ, pos, negsuc}
use tollgate_esp.Payment.Token.{c_str}

-- setup_state_t.
pub data SetupState : Type 0 where
  scan : SetupState
  list : SetupState
  password : SetupState
  connecting : SetupState
  success : SetupState
  failed : SetupState
  cancelled : SetupState

-- wifi_ap_info_t.
pub record ApInfo : Type 0 where
  pub ssid : Text
  pub rssi : ℤ
  pub secured : Bool

-- wifi_setup_t; `aps` are the entries below ap_count, and selected_ap is `none` for -1.
pub record WifiSetup : Type 0 where
  pub state : SetupState
  pub aps : List ApInfo
  pub list_scroll : ℕ
  pub selected_ap : Option ℕ
  pub selected_ssid : Text
  pub connect_ip : Text
  pub connect_failed_auth : Bool

-- wifi_setup_init.
unfoldable pub init : WifiSetup
init = record {
  state = scan;
  aps = [];
  list_scroll = 0;
  selected_ap = none;
  selected_ssid = [];
  connect_ip = [];
  connect_failed_auth = false;
}

-- wifi_setup_set_aps, for a count that the list of the scan has.
unfoldable pub set_aps : List ApInfo → WifiSetup → WifiSetup
set_aps aps s = record s { aps = take 20 aps; list_scroll = 0; state = list }

-- wifi_setup_visible_count.
unfoldable pub visible_count : WifiSetup → ℕ
visible_count s =
    let remaining = length s.aps - s.list_scroll in if ltb 8 remaining then 8 else remaining

-- An index that the code takes, which is negative for a touch outside the list.
unfoldable pub in_view : ℤ → WifiSetup → Option ℕ
unfolding visible_count
in_view (negsuc i) s = none
in_view (pos i) s = if ltb i (visible_count s) then some (s.list_scroll + i) else none

ap_at : Option ℕ → WifiSetup → Option ApInfo
ap_at none s = none
ap_at (some i) s = get_elem? s.aps i

-- wifi_setup_get_visible.
get_visible : ℤ → WifiSetup → Option ApInfo
unfolding ap_at in_view
get_visible i s = ap_at (in_view i s) s

unfoldable pub ssid_at : Option ApInfo → Text
ssid_at none = []
ssid_at (some ap) = c_str (take 32 ap.ssid)

unfoldable pub select_at : Option ℕ → WifiSetup → WifiSetup
unfolding ssid_at
select_at none s = s
select_at (some i) s = record s {
  selected_ap = some i;
  selected_ssid = ssid_at (get_elem? s.aps i);
  state = password;
}

-- The handlers, which return the state that they leave.
unfoldable pub when_list : SetupState → WifiSetup → WifiSetup → WifiSetup
when_list list s t = t
when_list _ s t = s

unfoldable pub when_password : SetupState → WifiSetup → WifiSetup → WifiSetup
when_password password s t = t
when_password _ s t = s

unfoldable pub when_connecting : SetupState → WifiSetup → WifiSetup → WifiSetup
when_connecting connecting s t = t
when_connecting _ s t = s

unfoldable pub when_failed : SetupState → WifiSetup → WifiSetup → WifiSetup
when_failed failed s t = t
when_failed _ s t = s

-- wifi_setup_handle_select.
unfoldable pub handle_select : ℤ → WifiSetup → WifiSetup
unfolding when_list select_at in_view
handle_select i s = when_list s.state s (select_at (in_view i s) s)

-- wifi_setup_handle_connect.
unfoldable pub handle_connect : WifiSetup → WifiSetup
unfolding when_password
handle_connect s = when_password s.state s (record s { state = connecting })

unfoldable pub connected : Option Text → WifiSetup → WifiSetup
connected none s = record s { state = success; connect_failed_auth = false }
connected (some ip) s = record s {
  state = success;
  connect_ip = c_str (take 15 ip);
  connect_failed_auth = false;
}

unfoldable pub refused : WifiSetup → WifiSetup
refused s = record s { state = failed; connect_failed_auth = true; connect_ip = [] }

-- wifi_setup_handle_connect_result.
unfoldable pub handle_connect_result : Bool → Option Text → WifiSetup → WifiSetup
unfolding when_connecting connected refused
handle_connect_result ok ip s = when_connecting s.state s (if ok then connected ip s else refused s)

-- wifi_setup_handle_cancel.
unfoldable pub handle_cancel : WifiSetup → WifiSetup
handle_cancel s = record s { state = cancelled }

-- wifi_setup_handle_retry.
unfoldable pub handle_retry : WifiSetup → WifiSetup
unfolding when_failed
handle_retry s = when_failed s.state s (record s { state = password; connect_failed_auth = false })

-- wifi_setup_handle_change_network.
unfoldable pub handle_change_network : WifiSetup → WifiSetup
unfolding when_failed
handle_change_network s =
    when_failed s.state s (record s { state = list; connect_failed_auth = false })
