-- ===== src/System/Histories.antt =====
-- The gate along sequences of calls.
use tollgate_esp.Prelude.{
  ℕ, ◌≡◌, refl, sym, ap, ◌∙◌, Bool, Option, none, some, List, [], ◌∷◌, arith, length, count_if,
  count_if-replicate, occ,
}
use tollgate_esp.Gate.State.{Gate, Env, boot, blank_session, session_max_clients}
use tollgate_esp.Gate.Firewall.{fw_grant, fw_init}
use tollgate_esp.Gate.Session.{session_init, serves, active_count}
use tollgate_esp.Gate.Invariant.{IsSound, IsPaidOnly}
use tollgate_esp.Gate.Grants.{fw_grant-InStep, fw_grant-SameRest}
use tollgate_esp.Gate.Slots.{revoke-IsSound, revoke-IsPaidOnly, is_active}
use tollgate_esp.Gate.Opening.{open_at-IsSound, open_at-IsPaidOnly}
use tollgate_esp.Gate.Upkeep.{rewritten-IsSound, rewritten-IsPaidOnly}
use tollgate_esp.Gate.Creation.{
  create-IsSound, create-IsPaidOnly, create_bytes-IsSound, create_bytes-IsPaidOnly, extend_keeps,
  add_bytes_keeps,
}
use tollgate_esp.Gate.Tick.{session_tick-IsSound, session_tick-IsPaidOnly}
use tollgate_esp.Gate.Owner.{client_connected, client_disconnected, owner_left, core_init}
use tollgate_esp.Payment.Outside.{Cjson, Services}
use tollgate_esp.Payment.Laws.{process_payment-IsPaidOnly, process_payment-IsSound}
use tollgate_esp.System.Calls.{
  PaidCall, pay, open_time, open_bytes, prolong, transfer, tick, reset_auth, join, leave, Call,
  paid, grant_access, services_stop, reset_auth_handler, paid_step, step, run, paid_run,
}
use tollgate_esp.System.RevokeAll.{fw_revoke_all-IsSound, reset-IsPaidOnly}

-- Neither invariant reads the owner's fields.
abbrev owned : Bool → ℕ → List ℕ → Gate → Gate
owned c ip mac g = record g { owner_connected = c; owner_ip = ip; owner_mac = mac }

owned-IsSound :
    (c : Bool) (ip : ℕ) (mac : List ℕ) (g : Gate) → IsSound g → IsSound (owned c ip mac g)
unfolding active_count
owned-IsSound c ip mac g v = record {
  slots = v.slots;
  counted = v.counted;
  one_session = v.one_session;
  in_step = record {
    fits = v.in_step.fits;
    lengths = v.in_step.lengths;
    agree = v.in_step.agree;
    once = v.in_step.once;
  };
}

owned-IsPaidOnly :
    (c : Bool) (ip : ℕ) (mac : List ℕ) (g : Gate) → IsPaidOnly g → IsPaidOnly (owned c ip mac g)
owned-IsPaidOnly c ip mac g v = record {
  sound = owned-IsSound c ip mac g v.sound;
  exact = v.exact;
  as_many = v.as_many;
}

-- Joining and leaving change those fields alone.
abbrev reowned : Gate → Gate → Gate
reowned g h = owned h.owner_connected h.owner_ip h.owner_mac g

connected_owned :
    (mac : Option (List ℕ)) (ip : ℕ) (g : Gate)
    → client_connected mac ip g ≡ reowned g (client_connected mac ip g)
unfolding client_connected
connected_owned mac ip g = ground arith

disconnected_owned :
    (mac : Option (List ℕ)) (g : Gate)
    → client_disconnected mac g ≡ reowned g (client_disconnected mac g)
unfolding client_disconnected owner_left
disconnected_owned none g = refl
disconnected_owned (some m) g = ground arith

module _ (cj : Cjson) (sv : Services) where
  pub paid_step-IsSound :
      (e : Env) (c : PaidCall) (g : Gate) → IsSound g → IsSound (paid_step cj sv e c g)
  unfolding paid_step reset_auth_handler
  paid_step-IsSound e (pay ip s) g v = process_payment-IsSound cj sv e ip s g v
  paid_step-IsSound e (open_time ip ms) g v = create-IsSound e ip ms g v
  paid_step-IsSound e (open_bytes ip n) g v = create_bytes-IsSound e ip n g v
  paid_step-IsSound e (prolong i ms) g v =
      extend_keeps IsSound revoke-IsSound rewritten-IsSound open_at-IsSound i ms g v
  paid_step-IsSound e (transfer ip n) g v =
      add_bytes_keeps IsSound revoke-IsSound rewritten-IsSound open_at-IsSound ip n g v
  paid_step-IsSound e tick g v = session_tick-IsSound e g v
  paid_step-IsSound e reset_auth g v = IsPaidOnly.sound (reset-IsPaidOnly g v)
  paid_step-IsSound e (join mac ip) g v = rw (connected_owned mac ip g) (owned-IsSound _ _ _ g v)
  paid_step-IsSound e (leave mac) g v = rw (disconnected_owned mac g) (owned-IsSound _ _ _ g v)

  pub paid_step-IsPaidOnly :
      (e : Env) (c : PaidCall) (g : Gate) → IsPaidOnly g → IsPaidOnly (paid_step cj sv e c g)
  unfolding paid_step reset_auth_handler
  paid_step-IsPaidOnly e (pay ip s) g v = process_payment-IsPaidOnly cj sv e ip s g v
  paid_step-IsPaidOnly e (open_time ip ms) g v = create-IsPaidOnly e ip ms g v
  paid_step-IsPaidOnly e (open_bytes ip n) g v = create_bytes-IsPaidOnly e ip n g v
  paid_step-IsPaidOnly e (prolong i ms) g v =
      extend_keeps IsPaidOnly revoke-IsPaidOnly rewritten-IsPaidOnly open_at-IsPaidOnly i ms g v
  paid_step-IsPaidOnly e (transfer ip n) g v =
      add_bytes_keeps IsPaidOnly revoke-IsPaidOnly rewritten-IsPaidOnly open_at-IsPaidOnly ip n g v
  paid_step-IsPaidOnly e tick g v = session_tick-IsPaidOnly e g v
  paid_step-IsPaidOnly e reset_auth g v = reset-IsPaidOnly g v.sound
  paid_step-IsPaidOnly e (join mac ip) g v =
      rw (connected_owned mac ip g) (owned-IsPaidOnly _ _ _ g v)
  paid_step-IsPaidOnly e (leave mac) g v =
      rw (disconnected_owned mac g) (owned-IsPaidOnly _ _ _ g v)

  fw_grant-IsSound : (e : Env) (ip : ℕ) (g : Gate) → IsSound g → IsSound (fw_grant e ip g)
  unfolding active_count
  fw_grant-IsSound e ip g v =
      let same = fw_grant-SameRest e ip g in
      record {
        slots = ap length same.sessions_same ∙ v.slots;
        counted = same.count_same ∙ v.counted ∙ sym (ap (count_if is_active) same.sessions_same);
        one_session = λ j. rw same.sessions_same (v.one_session j);
        in_step = fw_grant-InStep e ip g v.in_step;
      }

  step-IsSound : (e : Env) (c : Call) (g : Gate) → IsSound g → IsSound (step cj sv e c g)
  unfolding step
  step-IsSound e (paid c) g v = paid_step-IsSound e c g v
  step-IsSound e (grant_access ip) g v = fw_grant-IsSound e ip g v
  step-IsSound e services_stop g v = fw_revoke_all-IsSound g v

  pub run-keeps : (cs : List (Env × Call)) (g : Gate) → IsSound g → IsSound (run cj sv cs g)
  unfolding run
  run-keeps [] g v = v
  run-keeps ((e, c) ∷ cs) g v = run-keeps cs (step cj sv e c g) (step-IsSound e c g v)

  paid_run-keeps :
      (cs : List (Env × PaidCall)) (g : Gate) → IsPaidOnly g → IsPaidOnly (paid_run cj sv cs g)
  unfolding paid_run
  paid_run-keeps [] g v = v
  paid_run-keeps ((e, c) ∷ cs) g v =
      paid_run-keeps cs (paid_step cj sv e c g) (paid_step-IsPaidOnly e c g v)

core_init-IsSound : (ap_ip : ℕ) (g : Gate) → g.auth ≡ [] → IsSound (core_init ap_ip g)
unfolding core_init session_init fw_init active_count occ
core_init-IsSound ap_ip g empty = record {
  slots = refl;
  counted = sym (count_if-replicate is_active session_max_clients blank_session refl);
  one_session =
      λ ip. omega (arith, count_if-replicate (serves ip) session_max_clients blank_session refl);
  in_step = record {
    fits = omega arith;
    lengths = ap length empty;
    agree = λ ip. ap (occ (λ a. a) ip) empty;
    once = λ ip. omega arith;
  };
}

-- A gate that has just been initialised after boot.
core_init-IsPaidOnly : (ap_ip : ℕ) → IsPaidOnly (core_init ap_ip boot)
unfolding core_init session_init fw_init active_count occ
core_init-IsPaidOnly ap_ip = record {
  sound = core_init-IsSound ap_ip boot refl;
  exact = λ ip. sym (count_if-replicate (serves ip) session_max_clients blank_session refl);
  as_many = refl;
}

-- From a call of tollgate_core_init on a gate whose resolver has no address, the tables are sound
-- after every sequence of the other calls, the bare grants of the portal and the stop of the services
-- included.
pub run-IsSound :
    (cj : Cjson) (sv : Services) (ap_ip : ℕ) (g : Gate) (cs : List (Env × Call))
    → g.auth ≡ []
    → IsSound (run cj sv cs (core_init ap_ip g))
run-IsSound cj sv ap_ip g cs empty =
    run-keeps cj sv cs (core_init ap_ip g) (core_init-IsSound ap_ip g empty)

-- After every sequence of calls without the bare grants of the portal and the stop of the services,
-- the tables are sound and the firewall serves exactly the addresses with an active session.
pub paid_run-IsPaidOnly :
    (cj : Cjson) (sv : Services) (ap_ip : ℕ) (cs : List (Env × PaidCall))
    → IsPaidOnly (paid_run cj sv cs (core_init ap_ip boot))
paid_run-IsPaidOnly cj sv ap_ip cs =
    paid_run-keeps cj sv cs (core_init ap_ip boot) (core_init-IsPaidOnly ap_ip)
