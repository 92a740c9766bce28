-- ===== src/Panel.antt =====
-- main/wifi_setup.c and main/keyboard.c: what the touch panel drives.
pub mod WifiSetup
pub mod Selection
pub mod Keyboard
pub mod Typing
