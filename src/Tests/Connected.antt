-- ===== src/Tests/Connected.antt =====
-- The theorem on the table of connections at a concrete input.
use tollgate_esp.Prelude.{◌≡◌, List, ◌∷◌, none, some, replicate, count_if, ltb, codes}
use tollgate_esp.Relay.Connections.{server_init, on_open}
use tollgate_esp.Relay.Connections.Full.{
  Call, IsCounted, after_all, is_active, on_open-accepts, opens, closes, sends,
}

abbrev history : List Call
history =
    opens 54 10 (some (codes "192.168.4.2"))
    ∷ opens 55 11 none
    ∷ sends 54 12
    ∷ closes 54
    ∷ replicate 8 (opens 56 13 none)

on_open-accepts_example :
    IsCounted (after_all history server_init)
    × ((on_open 60 20 none (after_all history server_init)).1
        ≡ ltb (count_if is_active (after_all history server_init).connections) 8)
on_open-accepts_example = on_open-accepts history 60 20 none
