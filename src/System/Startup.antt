-- ===== src/System/Startup.antt =====
-- main/tollgate_main.c: the portal serves GET /grant_access from the start of the access point, and
-- tollgate_core_init follows later.
use tollgate_esp.Prelude.{
  ℕ, ◌≡◌, refl, sym, ap, ◌∙◌, false, List, ltb, occ, count_if-replicate, arith,
}
use tollgate_esp.Gate.State.{Gate, Env, boot, blank_session, session_max_clients}
use tollgate_esp.Gate.Auth.{is_authenticated, is_authenticated-occ}
use tollgate_esp.Gate.Firewall.{fw_init, fw_is_allowed, fw_is_allowed-occ}
use tollgate_esp.Gate.Session.{session_init, serves, active_count}
use tollgate_esp.Gate.Slots.{is_active}
use tollgate_esp.Gate.Invariant.{IsSound}
use tollgate_esp.Gate.Owner.{core_init}
use tollgate_esp.Payment.Outside.{Cjson, Services}
use tollgate_esp.System.Calls.{Call, run}
use tollgate_esp.System.Histories.{run-keeps}

boot-IsSound : IsSound boot
unfolding active_count occ
boot-IsSound = record {
  slots = refl;
  counted = sym (count_if-replicate is_active session_max_clients blank_session refl);
  one_session =
      λ ip. omega (arith, count_if-replicate (serves ip) session_max_clients blank_session refl);
  in_step = record {
    fits = omega arith;
    lengths = refl;
    agree = λ ip. refl;
    once = λ ip. omega arith;
  };
}

none_allowed :
    (ap_ip client_ip : ℕ) (g : Gate) → fw_is_allowed client_ip (core_init ap_ip g) ≡ false
unfolding core_init session_init fw_init occ
none_allowed ap_ip client_ip g = fw_is_allowed-occ client_ip (core_init ap_ip g)

kept_auth : (ap_ip : ℕ) (g : Gate) → (core_init ap_ip g).auth ≡ g.auth
unfolding core_init session_init fw_init
kept_auth ap_ip g = refl

-- Where calls came between the boot and tollgate_core_init, the firewall lets nobody through after
-- tollgate_core_init, while the resolver still takes for authenticated exactly the addresses that the
-- firewall let through before.
pub core_init-run :
    (cj : Cjson) (sv : Services) (ap_ip client_ip : ℕ) (cs : List (Env × Call))
    → (fw_is_allowed client_ip (core_init ap_ip (run cj sv cs boot)) ≡ false)
      × (is_authenticated client_ip (core_init ap_ip (run cj sv cs boot))
          ≡ fw_is_allowed client_ip (run cj sv cs boot))
core_init-run cj sv ap_ip client_ip cs =
    let before = run cj sv cs boot in
    let v = IsSound.in_step (run-keeps cj sv cs boot boot-IsSound) in
    (
      none_allowed ap_ip client_ip before,
      is_authenticated-occ client_ip (core_init ap_ip before)
          ∙ ap (λ xs. ltb 0 (occ (λ a. a) client_ip xs)) (kept_auth ap_ip before)
          ∙ ap (ltb 0) (v.agree client_ip)
          ∙ sym (fw_is_allowed-occ client_ip before),
    )
