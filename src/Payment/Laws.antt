-- ===== src/Payment/Laws.antt =====
-- tollgate_core_process_payment of tollgate_core.c: what a payment does to the gate.
use tollgate_esp.Prelude.{
  ℕ, ◌≡◌, refl, inl, inr, Bool, true, false, Option, none, some, ◌==◌, Bool-cases, Text, text_eq,
  codes,
}
use tollgate_esp.Gate.State.{Gate, Env}
use tollgate_esp.Gate.Firewall.{fw_is_allowed}
use tollgate_esp.Gate.Session.{create, create_bytes}
use tollgate_esp.Gate.Invariant.{IsSound, IsPaidOnly}
use tollgate_esp.Gate.Creation.{
  create-IsPaidOnly, create_bytes-IsPaidOnly, create-IsSound, create_bytes-IsSound,
}
use tollgate_esp.Gate.Results.{create-allowed, create_bytes-allowed}
use tollgate_esp.Gate.Refusals.{create_refused, create_bytes_refused}
use tollgate_esp.Payment.Outside.{Cjson, Services}
use tollgate_esp.Payment.Token.{CashuToken, calculate_allotment}
use tollgate_esp.Payment.Process.{
  Outcome, finish, settle, spend, spend_with, vetted, pay_vetted, process_payment, metric_of,
  price_of, step_of,
}

-- A property of outcomes holds of every payment if it holds of a refusal and of both ways to
-- make a session.
module _ (P : Outcome → Type 0) (e : Env) (ip : ℕ) (g : Gate)
    (idle : (spent : Bool) → P (record { gate = g; ok = false; spent = spent }))
    (timed : (spent : Bool) (n : ℕ) → P (finish spent (create e ip n g)))
    (counted : (spent : Bool) (n : ℕ) → P (finish spent (create_bytes e ip n g))) where
  settle_cases : (amount : ℕ) (spent : Bool) → P (settle e ip amount spent g)
  unfolding settle
  settle_cases amount spent =
      let n = calculate_allotment amount (price_of e) (step_of e) in
      elim (Bool-cases (n == 0)) [
        | inl nothing ↦ rw nothing (idle spent)
        | inr some_steps ↦ elim (Bool-cases (text_eq (metric_of e) (codes "bytes"))) [
          | inl bytes ↦ rw some_steps (rw bytes (counted spent n))
          | inr time ↦ rw some_steps (rw time (timed spent n))
        ]
      ]

  spend_cases : (s : Text) (amount : ℕ) → P (spend e ip s amount g)
  unfolding spend
  spend_cases s amount = with_callback e.platform.spend_proofs
    where
      with_callback : (o : Option (Text → Bool)) → P (spend_with e ip s amount g o)
      with_callback none = settle_cases amount false
      with_callback (some call) = elim (Bool-cases (call s)) [
        | inl took ↦ rw took (settle_cases amount true)
        | inr left ↦ rw left (idle false)
      ]

  pay_cases : (s : Text) (o : Option CashuToken) → P (pay_vetted e ip s g o)
  unfolding pay_vetted
  pay_cases s none = idle false
  pay_cases s (some t) = spend_cases s t.total_amount

  pub process_payment_cases :
      (cj : Cjson) (sv : Services) (s : Text) → P (process_payment cj sv e ip s g)
  unfolding process_payment
  process_payment_cases cj sv s = pay_cases s (vetted cj sv e s g)

-- What a session table keeps under both ways to make a session, it keeps under a payment.
module _ (P : Gate → Type 0)
    (on_time : (e : Env) (ip n : ℕ) (g : Gate) → P g → P (create e ip n g).0)
    (on_bytes : (e : Env) (ip n : ℕ) (g : Gate) → P g → P (create_bytes e ip n g).0) where
  process_payment_keeps :
      (cj : Cjson) (sv : Services) (e : Env) (ip : ℕ) (s : Text) (g : Gate)
      → P g
      → P (process_payment cj sv e ip s g).gate
  unfolding finish
  process_payment_keeps cj sv e ip s g v =
      process_payment_cases (λ o. P o.gate) e ip g (λ _. v)
        (λ spent n. finished spent (create e ip n g).0 (create e ip n g).1 (on_time e ip n g v))
        (λ spent n.
          finished spent (create_bytes e ip n g).0 (create_bytes e ip n g).1 (on_bytes e ip n g v))
        cj sv s
    where
      finished : (spent : Bool) (h : Gate) (o : Option ℕ) → P h → P (finish spent (h, o)).gate
      finished spent h none w = w
      finished spent h (some i) w = w

-- A payment keeps the tables sound, and the firewall in step with the sessions.
pub process_payment-IsSound :
    (cj : Cjson) (sv : Services) (e : Env) (ip : ℕ) (s : Text) (g : Gate)
    → IsSound g
    → IsSound (process_payment cj sv e ip s g).gate
process_payment-IsSound = process_payment_keeps IsSound create-IsSound create_bytes-IsSound

-- A payment, accepted or not, leaves the firewall serving the paid sessions only where it did before.
pub process_payment-IsPaidOnly :
    (cj : Cjson) (sv : Services) (e : Env) (ip : ℕ) (s : Text) (g : Gate)
    → IsPaidOnly g
    → IsPaidOnly (process_payment cj sv e ip s g).gate
process_payment-IsPaidOnly =
    process_payment_keeps IsPaidOnly create-IsPaidOnly create_bytes-IsPaidOnly

-- What an outcome says: let through, or nothing done.
abbrev Honest : ℕ → Gate → Outcome → Type 0
Honest ip g o = (o.ok ≡ true → fw_is_allowed ip o.gate ≡ true) × (o.ok ≡ false → o.gate ≡ g)

finish-Honest :
    (ip : ℕ) (g : Gate) (spent : Bool) (h : Gate) (o : Option ℕ)
    → ((i : ℕ) → o ≡ some i → fw_is_allowed ip h ≡ true)
    → (o ≡ none → h ≡ g)
    → Honest ip g (finish spent (h, o))
unfolding finish
finish-Honest ip g spent h none made kept = (λ e. cc, λ e. kept refl)
finish-Honest ip g spent h (some i) made kept = (λ e. made i refl, λ e. cc)

process_payment-Honest :
    (cj : Cjson) (sv : Services) (e : Env) (ip : ℕ) (s : Text) (g : Gate)
    → IsPaidOnly g
    → Honest ip g (process_payment cj sv e ip s g)
process_payment-Honest cj sv e ip s g v =
    process_payment_cases (Honest ip g) e ip g (λ spent. (λ e. cc, λ e. refl))
      (λ spent n.
        finish-Honest ip g spent (create e ip n g).0 (create e ip n g).1
          (λ i. create-allowed e ip n i g v) (λ r. (create_refused e ip n g v.sound r).0))
      (λ spent n.
        finish-Honest ip g spent (create_bytes e ip n g).0 (create_bytes e ip n g).1
          (λ i. create_bytes-allowed e ip n i g v)
          (λ r. (create_bytes_refused e ip n g v.sound r).0))
      cj sv s

-- Where the firewall serves the paid sessions only, an accepted payment lets its address through.
pub process_payment-allowed :
    (cj : Cjson) (sv : Services) (e : Env) (ip : ℕ) (s : Text) (g : Gate)
    → IsPaidOnly g
    → (process_payment cj sv e ip s g).ok ≡ true
    → fw_is_allowed ip (process_payment cj sv e ip s g).gate ≡ true
process_payment-allowed cj sv e ip s g v = (process_payment-Honest cj sv e ip s g v).0

-- Where the firewall serves the paid sessions only, a payment that is not accepted leaves the gate
-- as it was.
pub process_payment_refused :
    (cj : Cjson) (sv : Services) (e : Env) (ip : ℕ) (s : Text) (g : Gate)
    → IsPaidOnly g
    → (process_payment cj sv e ip s g).ok ≡ false
    → (process_payment cj sv e ip s g).gate ≡ g
process_payment_refused cj sv e ip s g v = (process_payment-Honest cj sv e ip s g v).1
