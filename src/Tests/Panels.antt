-- ===== src/Tests/Panels.antt =====
-- The theorems on the touch panel at concrete inputs.
use tollgate_esp.Prelude.{◌≡◌, refl, true, List, [], ◌∷◌, codes}
use tollgate_esp.Prelude.Int.{pos, negsuc}
use tollgate_esp.Panel.WifiSetup
use tollgate_esp.Panel.WifiSetup.{
  ApInfo, password, when_list, select_at, in_view, visible_count, set_aps, handle_select, ssid_at,
}
use tollgate_esp.Panel.Selection.{
  Event, select, after, handle, is_past_list, Selected, after-Selected,
}
use tollgate_esp.Panel.Selection
use tollgate_esp.Panel.Keyboard.{KbResult, char, backspace, numsym, default_layout, hit_test}
use tollgate_esp.Panel.Keyboard
use tollgate_esp.Panel.Typing.{typed, applied, Shows, applied-Shows}

abbrev events : List Event
events =
    Selection.scanned (record { ssid = codes "home"; rssi = negsuc 39; secured = true } ∷ [])
    ∷ select (pos 0)
    ∷ []

past : is_past_list (after events WifiSetup.init).state ≡ true
unfolding is_past_list after handle set_aps handle_select when_list select_at in_view visible_count
    ssid_at WifiSetup.init
past = refl

after-Selected_example : Selected (after events WifiSetup.init)
after-Selected_example = after-Selected events past

abbrev keys : List KbResult
keys =
    record { action = char; ch = b'h' }
    ∷ record { action = char; ch = b'j' }
    ∷ record { action = backspace; ch = 0 }
    ∷ record { action = char; ch = b'i' }
    ∷ []

applied-Shows_example : Shows (applied keys Keyboard.init) (typed keys [])
applied-Shows_example = applied-Shows keys
