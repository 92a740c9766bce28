-- ===== src/Relay/Handlers/Verified.antt =====
-- components/wisp_relay/handlers.c: what an event that does not pass the validator changes.
use Prim.Native.String.{String}
use tollgate_esp.Prelude.{
  ℕ, ◌≡◌, refl, sym, Bool, true, false, not, Option, none, some, [], ◌∷◌, if◌then◌else◌, if-cases,
  option-cases, option-split, >>=-split, ◌⊎◌, inl, inr, subst, Text, codes, ◌>>=◌,
}
use tollgate_esp.Prelude.Int.{ℤ, pos, negsuc}
use tollgate_esp.Relay.Outside.{Json, Crypto}
use tollgate_esp.Relay.Limiter.{RateType}
use tollgate_esp.Relay.Scan.{relay_hex_to_bytes}
use tollgate_esp.Relay.Storage.Calls.{event_exists}
use tollgate_esp.Relay.Validator.{verify_event}
use tollgate_esp.Relay.Handlers.{
  Handled, Moment, RelayCtx, sent_ok, admit_event, dated, parsed, required_field, refusal,
  handle_event, rate_check, too_far, store,
}

-- The handler ended with the storage, the subscriptions and the limit as they were, and one answer.
pub record IsUnchanged (fd : ℕ) (before : RelayCtx) (h : Handled) : Type 0 where
  pub same_storage : h.ctx.storage ≡ before.storage
  pub same_subs : h.ctx.sub_manager ≡ before.sub_manager
  pub same_limit : h.ctx.max_future_sec ≡ before.max_future_sec
  pub one_answer :
      (id : Option Text) × (accepted : Bool) × (message : Text) × (h.sent
        ≡ sent_ok fd id accepted message ∷ [])

-- A context that differs by the rate limiter at most.
pub record IsLike (before ctx : RelayCtx) : Type 0 where
  pub like_storage : ctx.storage ≡ before.storage
  pub like_subs : ctx.sub_manager ≡ before.sub_manager
  pub like_limit : ctx.max_future_sec ≡ before.max_future_sec

-- The text is an event whose id is there and no string.
pub record HasNullId (J : Json) (json : Text) : Type 0 where
  pub obj : Json.Node J
  pub id_item : Json.Node J
  pub is_parsed : J.parse json ≡ some obj
  pub has_id : J.get_object_item obj (codes "id") ≡ some id_item
  pub is_null : J.valuestring id_item ≡ none

-- How the handler may end, and when it may read through NULL.
unfoldable pub Whatever : Type 0 → ℕ → RelayCtx → Option Handled → Type 0
Whatever N fd before none = N
Whatever N fd before (some h) = IsUnchanged fd before h

LikeIn : RelayCtx → RelayCtx × Bool → Type 0
LikeIn before r = IsLike before (r.0)

pub rate_check-IsLike :
    (fd : ℕ) (type : RateType) (s : ℕ) (ctx : RelayCtx) → IsLike ctx ((rate_check fd type s ctx).0)
unfolding rate_check LikeIn
rate_check-IsLike fd type s ctx =
    option-cases (LikeIn ctx) ctx.rate_limiter _ _
      record { like_storage = refl; like_subs = refl; like_limit = refl }
      (λ rl. record { like_storage = refl; like_subs = refl; like_limit = refl })

module _ (N : Type 0) (before ctx : RelayCtx) (like : IsLike before ctx) (fd : ℕ) where
  answered :
      (id : Option Text) (accepted : Bool) (message : Text) (result : ℤ)
      → Whatever N fd before
          (some record { ctx = ctx; sent = sent_ok fd id accepted message ∷ []; result = result })
  unfolding Whatever
  answered id accepted message result = record {
    same_storage = like.like_storage;
    same_subs = like.like_subs;
    same_limit = like.like_limit;
    one_answer = (id, accepted, message, refl);
  }

  pub refused :
      (id : Option Text) (message : String) → Whatever N fd before (refusal fd id message ctx)
  unfolding refusal
  refused id message = answered id false (codes message) (negsuc 0)

  module _ (J : Json) (C : Crypto) (m : Moment) (json : Text) where
    required_field-Whatever :
        (obj : Json.Node J) (name : String) (continue : Json.Node J → Option Handled)
        → ((node : Json.Node J)
            → J.get_object_item obj (codes name) ≡ some node
            → Whatever N fd before (continue node))
        → Whatever N fd before (required_field J C m fd json obj name ctx continue)
    unfolding required_field
    required_field-Whatever obj name continue rest =
        option-split (Whatever N fd before) (J.get_object_item obj (codes name)) _ continue
          (λ missing. refused (some []) "missing required fields") rest

    pub parsed-Whatever :
        ((obj i p k c : Json.Node J)
          → J.parse json ≡ some obj
          → J.get_object_item obj (codes "id") ≡ some i
          → J.get_object_item obj (codes "created_at") ≡ some c
          → Whatever N fd before (dated J C m fd json i p k c ctx))
        → Whatever N fd before (parsed J C m fd json ctx)
    unfolding parsed
    parsed-Whatever rest =
        option-split (Whatever N fd before) (J.parse json) _ _
          (λ not_parsed. refused (some []) "invalid JSON")
          (λ obj is_parsed. required_field-Whatever obj "id" _ λ i has_id.
            required_field-Whatever obj "pubkey" _ λ p has_pubkey.
              required_field-Whatever obj "kind" _ λ k has_kind.
                required_field-Whatever obj "created_at" _
                  λ c has_created_at. rest obj i p k c is_parsed has_id has_created_at)

  module _ (J : Json) (C : Crypto) (m : Moment) (json : Text)
      (invalid : verify_event J C json ≡ some false) where
    admit_event-Whatever :
        (id_hex : Text) (p k c : Json.Node J)
        → Whatever N fd before (admit_event J C m fd json id_hex p k c ctx)
    unfolding admit_event
    admit_event-Whatever id_hex p k c =
        if-cases (Whatever N fd before) (not (relay_hex_to_bytes id_hex 64 32).1) _ _
          (λ h. refused (some []) "invalid event id")
          (λ h.
            if-cases (Whatever N fd before)
              (event_exists ((relay_hex_to_bytes id_hex 64 32).0) ctx.storage) _ _
              (λ there. answered (some id_hex) true (codes "duplicate") (pos 0))
              (λ new.
                subst
                  (λ v. Whatever N fd before (
                    v >>= λ valid.
                    if not valid
                    then refusal fd (some id_hex) "invalid signature" ctx
                    else store J C m fd json id_hex p k c ctx))
                  (sym invalid) (refused (some id_hex) "invalid signature")))

    dated-Whatever :
        (i p k c : Json.Node J)
        → (J.valuestring i ≡ none → N)
        → Whatever N fd before (dated J C m fd json i p k c ctx)
    unfolding dated Whatever
    dated-Whatever i p k c null =
        if-cases (Whatever N fd before) (too_far m.tick_seconds (J.to_uint64 (J.valuedouble c)) ctx)
          _ _ (λ h. refused (J.valuestring i) "created_at too far in future")
          (λ h.
            >>=-split (Whatever N fd before) (J.valuestring i) _ null
              (λ id_hex there. admit_event-Whatever id_hex p k c))

pub ended_or_null :
    (N : Type 0) (fd : ℕ) (before : RelayCtx) (o : Option Handled)
    → Whatever N fd before o
    → ((h : Handled) × (o ≡ some h) × IsUnchanged fd before h) ⊎ ((o ≡ none) × N)
unfolding Whatever
ended_or_null N fd before none w = inr (refl, w)
ended_or_null N fd before (some h) w = inl (h, refl, w)

-- handle_event on an event for which relay_validator_verify_event gives false, in any state of the
-- relay: either it ends with the stored events and the subscriptions as they were and one message
-- sent, an answer on the connection that the event came from; or it reads through NULL, which it does
-- only if the event has an id that is no string.
pub handle_event-unverified :
    (J : Json) (C : Crypto) (m : Moment) (fd : ℕ) (json : Text) (ctx : RelayCtx)
    → verify_event J C json ≡ some false
    → ((h : Handled) × (handle_event J C m fd json ctx ≡ some h) × IsUnchanged fd ctx h)
      ⊎ ((handle_event J C m fd json ctx ≡ none) × HasNullId J json)
unfolding handle_event
handle_event-unverified J C m fd json ctx invalid =
    let N = HasNullId J json in
    let checked = (rate_check fd RateType.event m.timer_seconds ctx).0 in
    let like = rate_check-IsLike fd RateType.event m.timer_seconds ctx in
    ended_or_null N fd ctx _ (
      if-cases (Whatever N fd ctx) ((rate_check fd RateType.event m.timer_seconds ctx).1) _ _
        (λ allowed.
          parsed-Whatever N ctx checked like fd J C m json λ obj i p k c is_parsed has_id dated_at.
            dated-Whatever N ctx checked like fd J C m json invalid i p k c λ is_null. record {
              obj = obj;
              id_item = i;
              is_parsed = is_parsed;
              has_id = has_id;
              is_null = is_null;
            })
        (λ limited. refused N ctx checked like fd (some []) "rate limited"))
