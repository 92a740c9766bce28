-- ===== src/System/Calls.antt =====
-- The calls that main/tollgate_api.c, main/captive_portal.c, main/tollgate_main.c and the DHCP and
-- Wi-Fi events make on the gate.
use tollgate_esp.Prelude.{ℕ, Option, List, [], ◌∷◌, Text}
use tollgate_esp.Gate.State.{Gate, Env}
use tollgate_esp.Gate.Firewall.{fw_grant, fw_revoke_all}
use tollgate_esp.Gate.Session.{
  create, create_bytes, extend, add_bytes, session_tick, session_revoke_all,
}
use tollgate_esp.Gate.Owner.{client_connected, client_disconnected}
use tollgate_esp.Payment.Outside.{Cjson, Services}
use tollgate_esp.Payment.Process.{process_payment}

-- The calls that leave access to the payments.
pub data PaidCall : Type 0 where
  pay : ℕ → Text → PaidCall
  open_time : ℕ → ℕ → PaidCall
  open_bytes : ℕ → ℕ → PaidCall
  prolong : ℕ → ℕ → PaidCall
  transfer : ℕ → ℕ → PaidCall
  tick : PaidCall
  reset_auth : PaidCall
  join : Option (List ℕ) → ℕ → PaidCall
  leave : Option (List ℕ) → PaidCall

-- Those that change the firewall alone: GET /grant_access, and the end of the services.
pub data Call : Type 0 where
  paid : PaidCall → Call
  grant_access : ℕ → Call
  services_stop : Call

-- reset_auth_handler.
unfoldable pub reset_auth_handler : Gate → Gate
reset_auth_handler g = fw_revoke_all (session_revoke_all g)

module _ (cj : Cjson) (sv : Services) where
  unfoldable pub paid_step : Env → PaidCall → Gate → Gate
  paid_step e (pay ip s) g = (process_payment cj sv e ip s g).gate
  paid_step e (open_time ip ms) g = (create e ip ms g).0
  paid_step e (open_bytes ip n) g = (create_bytes e ip n g).0
  paid_step e (prolong i ms) g = extend i ms g
  paid_step e (transfer ip n) g = add_bytes ip n g
  paid_step e tick g = session_tick e g
  paid_step e reset_auth g = reset_auth_handler g
  paid_step e (join mac ip) g = client_connected mac ip g
  paid_step e (leave mac) g = client_disconnected mac g

  -- grant_access_handler, where the address of the client is known, is a bare grant.
  unfoldable pub step : Env → Call → Gate → Gate
  step e (paid c) g = paid_step e c g
  step e (grant_access ip) g = fw_grant e ip g
  step e services_stop g = fw_revoke_all g

  unfoldable pub run : List (Env × Call) → Gate → Gate
  run [] g = g
  run ((e, c) ∷ cs) g = run cs (step e c g)

  unfoldable pub paid_run : List (Env × PaidCall) → Gate → Gate
  paid_run [] g = g
  paid_run ((e, c) ∷ cs) g = paid_run cs (paid_step e c g)
