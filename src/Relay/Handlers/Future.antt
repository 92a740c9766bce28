-- ===== src/Relay/Handlers/Future.antt =====
-- components/wisp_relay/handlers.c: the check of the date of an event against the uptime.
use tollgate_esp.Prelude.{
  ℕ, suc, ◌+◌, ◌^◌, ◌<◌, ◌≤◌, ◌≡◌, refl, ap, ◌∙◌, true, Option, some, List, [], ◌∷◌, if-cases,
  get_elem?, inl, inr, Text, codes, ◌>>=◌, arith,
}
use tollgate_esp.Prelude.Int.{pos, ◌+ℤ◌}
use tollgate_esp.Relay.Outside.{Json, Crypto}
use tollgate_esp.Relay.Limiter.{RateType}
use tollgate_esp.Relay.Handlers.{
  Handled, Moment, RelayCtx, dated, handle_event, rate_check, too_far,
}
use tollgate_esp.Relay.Handlers.Verified.{
  IsUnchanged, Whatever, ended_or_null, parsed-Whatever, rate_check-IsLike, refused,
}

too_far-later :
    (tick created limit : ℕ) (ctx : RelayCtx)
    → ctx.max_future_sec ≡ pos limit
    → 1 ≤ limit
    → tick + limit < created
    → created < 2 ^ 63
    → too_far tick created ctx ≡ true
unfolding too_far ◌+ℤ◌
too_far-later tick created limit ctx set some_limit later fits = rw set (ground arith)

-- A message of a client: when it comes, the connection, and the text of its event.
abbrev pub Message : Type 0
Message = Moment × ℕ × Text

module _ (J : Json) (C : Crypto) where
  -- If a text is an event with a date, the date is more than 600 seconds after the uptime.
  abbrev pub IsLate : Message → Type 0
  IsLate (m, fd, json) =
      (obj c : Json.Node J)
      → J.parse json ≡ some obj
      → J.get_object_item obj (codes "created_at") ≡ some c
      → (m.tick_seconds + 600 < J.to_uint64 (J.valuedouble c))
        × (J.to_uint64 (J.valuedouble c) < 2 ^ 63)

  handle_event-late :
      (m : Moment) (fd : ℕ) (json : Text) (ctx : RelayCtx)
      → ctx.max_future_sec ≡ pos 600
      → IsLate (m, fd, json)
      → (h : Handled) × (handle_event J C m fd json ctx ≡ some h) × IsUnchanged fd ctx h
  unfolding handle_event dated
  handle_event-late m fd json ctx limit late =
      let checked = (rate_check fd RateType.event m.timer_seconds ctx).0 in
      let like = rate_check-IsLike fd RateType.event m.timer_seconds ctx in
      let ended : Whatever ⊥ fd ctx (handle_event J C m fd json ctx) =
        if-cases (Whatever ⊥ fd ctx) ((rate_check fd RateType.event m.timer_seconds ctx).1) _ _
          (λ allowed.
            parsed-Whatever ⊥ ctx checked like fd J C m json
              λ obj i p k c is_parsed has_id dated_at.
                let created = J.to_uint64 (J.valuedouble c) in
                let (later, fits) = late obj c is_parsed dated_at in
                let far : too_far m.tick_seconds created checked ≡ true =
                  too_far-later m.tick_seconds created 600 checked (like.like_limit ∙ limit)
                    (omega arith) later fits in
                if-cases (Whatever ⊥ fd ctx) (too_far m.tick_seconds created checked) _ _
                  (λ yes.
                    refused ⊥ ctx checked like fd (J.valuestring i) "created_at too far in future")
                  (λ no. absurd (ground (arith, far, no))))
          (λ limited. refused ⊥ ctx checked like fd (some []) "rate limited") in
      elim (ended_or_null ⊥ fd ctx _ ended) [ inl h ↦ h | inr n ↦ absurd (n.1) ]

  -- handle_event on one message after the other; `none` where one reads through NULL.
  unfoldable pub take_events : List Message → RelayCtx → Option RelayCtx
  take_events [] ctx = some ctx
  take_events ((m, fd, json) ∷ es) ctx =
      handle_event J C m fd json ctx >>= λ h. take_events es h.ctx

-- The date of an event is compared with the seconds since the start of the chip. Where the limit is
-- the 600 seconds that local_relay_init sets, any sequence of messages is handled to its end with the
-- stored events and the subscriptions as they were, if every event of them that has a date is dated
-- more than 600 seconds after the uptime and below 2^63, whatever the time of day is.
pub take_events-late :
    (J : Json) (C : Crypto) (es : List Message) (ctx : RelayCtx)
    → ctx.max_future_sec ≡ pos 600
    → ((i : ℕ) (e : Message) → get_elem? es i ≡ some e → IsLate J C e)
    → (after : RelayCtx) × (take_events J C es ctx ≡ some after)
      × (after.storage ≡ ctx.storage)
      × (after.sub_manager ≡ ctx.sub_manager)
unfolding take_events
take_events-late J C [] ctx limit late = (ctx, refl, refl, refl)
take_events-late J C ((m, fd, json) ∷ es) ctx limit late =
    let (h, ends, same) = handle_event-late J C m fd json ctx limit (late 0 (m, fd, json) refl) in
    let (after, rest, storage, subs) =
      take_events-late J C es h.ctx (same.same_limit ∙ limit) (λ i. late (suc i)) in
    (
      after,
      ap (λ o. o >>= λ k. take_events J C es k.ctx) ends ∙ rest,
      storage ∙ same.same_storage,
      subs ∙ same.same_subs,
    )
