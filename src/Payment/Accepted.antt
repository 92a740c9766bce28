-- ===== src/Payment/Accepted.antt =====
-- tollgate_core_process_payment of tollgate_core.c: what it asks of a token, and a token that is lost.
use tollgate_esp.Prelude.{
  ℕ, ◌<◌, ◌≡◌, refl, inl, inr, Bool, true, false, not, Option, none, some, List, Bool-cases, subst,
  >>=-eq_some, >>-eq_some, Text, is_empty, arith,
}
use tollgate_esp.Gate.State.{Gate, Env}
use tollgate_esp.Gate.Invariant.{holders}
use tollgate_esp.Gate.Refusals.{AllInUse, create_full, create_bytes_full}
use tollgate_esp.Payment.Outside.{Cjson, Services}
use tollgate_esp.Payment.Token.{
  CashuToken, ProofState, decode_token, check_proof_states, calculate_allotment, is_mint_accepted,
}
use tollgate_esp.Payment.Process.{
  refused, finish, settle, spend, spend_with, vetted, pay_vetted, process_payment, any_spent,
  price_of, step_of,
}

vetted_token :
    (cj : Cjson) (sv : Services) (e : Env) (s : Text) (g : Gate) (t : CashuToken)
    → vetted cj sv e s g ≡ some t
    → (accepted : Text) × (states : List ProofState) × (e.platform.get_mint_url ≡ some accepted)
      × (decode_token cj sv s ≡ some t)
      × (is_mint_accepted t.mint_url accepted ≡ true)
      × (check_proof_states cj sv t ≡ some states)
      × (any_spent states ≡ false)
unfolding vetted
vetted_token cj sv e s g t h =
    let (on, h1) = >>-eq_some g.platform_set _ h in
    let (accepted, url, h2) = >>=-eq_some e.platform.get_mint_url _ h1 in
    let (given, h3) = >>-eq_some (not (is_empty accepted)) _ h2 in
    let (u, decoded, h4) = >>=-eq_some (decode_token cj sv s) _ h3 in
    let (trusted, h5) = >>-eq_some (is_mint_accepted u.mint_url accepted) _ h4 in
    let (states, checked, h6) = >>=-eq_some (check_proof_states cj sv u) _ h5 in
    let (unspent, h7) = >>-eq_some (not (any_spent states)) _ h6 in
    let same : u ≡ t = ground arith in
    (
      accepted,
      states,
      url,
      subst (λ v. decode_token cj sv s ≡ some v) same decoded,
      subst (λ v. is_mint_accepted v.mint_url accepted ≡ true) same trusted,
      subst (λ v. check_proof_states cj sv v ≡ some states) same checked,
      ground arith,
    )

-- What the platform says of a token; without the callback it is taken as it is.
pub is_taken : Option (Text → Bool) → Text → Bool
is_taken none s = true
is_taken (some call) s = call s

-- What an accepted payment had to meet: a token of the accepted mint, no proof of it spent, taken
-- by the platform where it wants to, and worth at least one step.
pub record PaidBy (cj : Cjson) (sv : Services) (e : Env) (s : Text) (t : CashuToken) : Type 0 where
  pub accepted : Text
  pub states : List ProofState
  pub mint_known : e.platform.get_mint_url ≡ some accepted
  pub decoded : decode_token cj sv s ≡ some t
  pub trusted : is_mint_accepted t.mint_url accepted ≡ true
  pub checked : check_proof_states cj sv t ≡ some states
  pub unspent : any_spent states ≡ false
  pub worth : 0 < calculate_allotment t.total_amount (price_of e) (step_of e)
  pub taken : is_taken e.platform.spend_proofs s ≡ true

settle_worth :
    (e : Env) (ip amount : ℕ) (spent : Bool) (g : Gate)
    → (settle e ip amount spent g).ok ≡ true
    → 0 < calculate_allotment amount (price_of e) (step_of e)
unfolding settle
settle_worth e ip amount spent g h = ground arith

spend_taken :
    (e : Env) (ip : ℕ) (s : Text) (amount : ℕ) (g : Gate)
    → (spend e ip s amount g).ok ≡ true
    → (0 < calculate_allotment amount (price_of e) (step_of e))
      × (is_taken e.platform.spend_proofs s ≡ true)
unfolding spend is_taken
spend_taken e ip s amount g = with_callback e.platform.spend_proofs
  where
    with_callback :
        (o : Option (Text → Bool))
        → (spend_with e ip s amount g o).ok ≡ true
        → (0 < calculate_allotment amount (price_of e) (step_of e)) × (is_taken o s ≡ true)
    with_callback none h = (settle_worth e ip amount false g h, refl)
    with_callback (some take) h = elim (Bool-cases (take s)) [
      | inl took ↦ (settle_worth e ip amount true g (rw took at h), took)
      | inr left ↦ absurd (no_payment (rw left at h))
    ]
      where
        no_payment : (refused g).ok ≡ true → ⊥
        no_payment e = cc

-- A payment that is accepted was made with a token that decodes to proofs of the mint that the
-- platform names, of which the mint reports none as spent, which the platform took where it has the
-- callback, and which is worth at least one step.
pub process_payment_paid :
    (cj : Cjson) (sv : Services) (e : Env) (ip : ℕ) (s : Text) (g : Gate)
    → (process_payment cj sv e ip s g).ok ≡ true
    → (t : CashuToken) × PaidBy cj sv e s t
unfolding process_payment
process_payment_paid cj sv e ip s g = from (vetted cj sv e s g) refl
  where
    from :
        (o : Option CashuToken)
        → vetted cj sv e s g ≡ o
        → (pay_vetted e ip s g o).ok ≡ true
        → (t : CashuToken) × PaidBy cj sv e s t
    from none eq h = absurd (ground arith)
    from (some t) eq h =
        let v = vetted_token cj sv e s g t eq in
        let (worth, taken) = spend_taken e ip s t.total_amount g h in
        (
          t,
          record {
            accepted = v.0;
            states = v.1;
            mint_known = v.2;
            decoded = v.3;
            trusted = v.4;
            checked = v.5;
            unspent = v.6;
            worth = worth;
            taken = taken;
          },
        )

-- A token that passes every test and is taken by the platform is lost when no slot of the table is
-- free or has run out and the address has no session: the payment fails after the token was spent.
pub process_payment_burns :
    (cj : Cjson) (sv : Services) (e : Env) (ip : ℕ) (s : Text) (g : Gate) (t : CashuToken)
    (call : Text → Bool)
    → vetted cj sv e s g ≡ some t
    → e.platform.spend_proofs ≡ some call
    → call s ≡ true
    → AllInUse e g
    → holders ip g ≡ 0
    → process_payment cj sv e ip s g ≡ record { gate = g; ok = false; spent = true }
unfolding process_payment pay_vetted spend spend_with settle finish
process_payment_burns cj sv e ip s g t call pass cb took busy z =
    let n = calculate_allotment t.total_amount (price_of e) (step_of e) in
    rw (pass, pay_vetted)
      (rw (cb, spend_with)
        (rw took (ground (arith, create_full e ip n g busy z, create_bytes_full e ip n g busy z))))
