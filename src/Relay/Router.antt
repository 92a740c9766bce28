-- ===== src/Relay/Router.antt =====
-- components/wisp_relay/router.c, and the requests for subscriptions of handlers.c.
use Prim.Native.String.{String}
use tollgate_esp.Prelude.{
  ℕ, zero, suc, not, ◌&&◌, Option, none, some, List, [], ◌∷◌, ◌++◌, map, ltb, leb, if◌then◌else◌,
  Text, codes, text_eq, ◌>>=◌,
}
use tollgate_esp.Prelude.Int.{ℤ, pos, negsuc, ltb_ℤ}
use tollgate_esp.Payment.Token.{c_str}
use tollgate_esp.Relay.Outside.{Json, Crypto}
use tollgate_esp.Relay.Limiter.{RateType}
use tollgate_esp.Relay.Subs
use tollgate_esp.Relay.Subs.{SubFilter, SubManager, max_filter_items}
use tollgate_esp.Relay.Storage.Calls.{query_events_json}
use tollgate_esp.Relay.Deletion.{or_nothing}
use tollgate_esp.Relay.Handlers.{
  Moment, RelayCtx, Sent, handle_event, rate_check, sent_closed, sent_eose, sent_event, sent_notice,
}

-- `count > 20 ? 20 : count`.
bounded_size : ℕ → ℕ
bounded_size n = if ltb max_filter_items n then max_filter_items else n

module _ (J : Json) where
  -- strdup of the strings of n items from i on; `none` is the strdup of a NULL.
  strings_from : Json.Node J → ℕ → ℕ → Option (List Text)
  strings_from arr zero i = some []
  strings_from arr (suc n) i = J.array_item arr i >>= λ node.
      J.valuestring node >>= λ s. strings_from arr n (suc i) >>= λ rest. some (s ∷ rest)

  ints_from : Json.Node J → ℕ → ℕ → Option (List ℤ)
  ints_from arr zero i = some []
  ints_from arr (suc n) i = J.array_item arr i >>= λ node.
      ints_from arr n (suc i) >>= λ rest. some (J.valueint node ∷ rest)

  array_at : Json.Node J → String → Option (Json.Node J)
  array_at obj name = elim (J.get_object_item obj (codes name)) [
    | none ↦ none
    | some arr ↦ if J.is_array arr then some arr else none
  ]

  strings_of : Json.Node J → String → Option (List Text)
  unfolding array_at strings_from bounded_size
  strings_of obj name = elim (array_at obj name) [
    | none ↦ some []
    | some arr ↦ strings_from arr (bounded_size (J.array_size arr)) 0
  ]

  ints_of : Json.Node J → String → Option (List ℤ)
  unfolding array_at ints_from bounded_size
  ints_of obj name = elim (array_at obj name) [
    | none ↦ some []
    | some arr ↦ ints_from arr (bounded_size (J.array_size arr)) 0
  ]

  int64_of : Json.Node J → String → ℤ
  int64_of obj name = elim (J.get_object_item obj (codes name)) [
    | none ↦ pos 0
    | some node ↦ J.to_int64 (J.valuedouble node)
  ]

  int_of : Json.Node J → String → ℤ
  int_of obj name = elim (J.get_object_item obj (codes name)) [
    | none ↦ pos 0
    | some node ↦ J.valueint node
  ]

  -- parse_filter_json; a read through NULL is `none`.
  parse_filter_json : Text → Option SubFilter
  unfolding strings_of ints_of int64_of int_of
  parse_filter_json json = elim (J.parse json) [
    | none ↦ some record {
      ids = [];
      authors = [];
      kinds = [];
      e_tags = [];
      p_tags = [];
      since = pos 0;
      until = pos 0;
      limit = pos 0;
    }
    | some obj ↦ strings_of obj "ids" >>= λ ids. strings_of obj "authors" >>= λ authors.
        ints_of obj "kinds" >>= λ kinds. strings_of obj "#e" >>= λ e_tags.
        strings_of obj "#p" >>= λ p_tags. some record {
          ids = ids;
          authors = authors;
          kinds = kinds;
          e_tags = e_tags;
          p_tags = p_tags;
          since = int64_of obj "since";
          until = int64_of obj "until";
          limit = int_of obj "limit";
        }
  ]

-- The kind, the author and the limit of the query, of which the first of a list counts.
query_kind_of : List ℤ → ℤ
query_kind_of [] = negsuc 0
query_kind_of (k ∷ ks) = k

query_author_of : List Text → Option Text
query_author_of [] = none
query_author_of (a ∷ rest) = some a

query_limit_of : ℤ → ℤ
query_limit_of limit = if ltb_ℤ (pos 0) limit then limit else pos 100

-- The stored events, the end of them, and the subscription.
unfoldable pub answer_req : Moment → ℕ → Text → SubFilter → RelayCtx → RelayCtx × List Sent
unfolding query_kind_of query_author_of query_limit_of
answer_req m fd sub_id filter ctx =
    let bodies = or_nothing (
      query_events_json m.outside (query_kind_of filter.kinds) (query_author_of filter.authors)
        (query_limit_of filter.limit) ctx.storage) in
    (
      record ctx { sub_manager = (Subs.add fd sub_id (filter ∷ []) ctx.sub_manager).0 },
      map (λ body. sent_event fd sub_id (c_str body)) bodies ++ sent_eose fd sub_id ∷ [],
    )

module _ (J : Json) (C : Crypto) (m : Moment) (fd : ℕ) where
  -- handle_req.
  handle_req : Text → Text → RelayCtx → Option (RelayCtx × List Sent)
  unfolding parse_filter_json answer_req
  handle_req sub_id filters_json ctx =
      let (checked, allowed) = rate_check fd RateType.req m.timer_seconds ctx in
      if not allowed
      then some (checked, sent_closed fd sub_id (codes "rate limited") ∷ [])
      else parse_filter_json J filters_json >>= λ filter.
          some (answer_req m fd sub_id filter checked)

  -- handle_close.
  handle_close : Text → RelayCtx → RelayCtx
  handle_close sub_id ctx = record ctx { sub_manager = (Subs.remove fd sub_id ctx.sub_manager).0 }

  notice : String → RelayCtx → Option (RelayCtx × List Sent)
  notice message ctx = some (ctx, sent_notice fd (codes message) ∷ [])

  -- The branch of "EVENT".
  dispatch_event : Option (Json.Node J) → RelayCtx → Option (RelayCtx × List Sent)
  dispatch_event none ctx = some (ctx, [])
  dispatch_event (some event) ctx =
      handle_event J C m fd (J.print event) ctx >>= λ h. some (h.ctx, h.sent)

  -- The string of an item, where it is one.
  sub_id_of : Option (Json.Node J) → Option Text
  sub_id_of none = none
  sub_id_of (some node) = if J.is_string node then J.valuestring node else none

  -- The branches of "REQ" and "CLOSE".
  dispatch_req : Option Text → Option (Json.Node J) → RelayCtx → Option (RelayCtx × List Sent)
  unfolding handle_req
  dispatch_req none filter ctx = some (ctx, [])
  dispatch_req (some sub_id) none ctx = handle_req sub_id (codes "{}") ctx
  dispatch_req (some sub_id) (some filter) ctx = handle_req sub_id (J.print filter) ctx

  dispatch_close : Option Text → RelayCtx → Option (RelayCtx × List Sent)
  unfolding handle_close
  dispatch_close none ctx = some (ctx, [])
  dispatch_close (some sub_id) ctx = some (handle_close sub_id ctx, [])

  dispatch_command : Json.Node J → Text → RelayCtx → Option (RelayCtx × List Sent)
  unfolding notice dispatch_event dispatch_req dispatch_close sub_id_of
  dispatch_command arr cmd ctx =
      if text_eq cmd (codes "EVENT") && leb 2 (J.array_size arr)
      then dispatch_event (J.array_item arr 1) ctx
      else if text_eq cmd (codes "REQ") && leb 3 (J.array_size arr)
      then dispatch_req (sub_id_of (J.array_item arr 1)) (J.array_item arr 2) ctx
      else if text_eq cmd (codes "CLOSE") && leb 2 (J.array_size arr)
      then dispatch_close (sub_id_of (J.array_item arr 1)) ctx
      else notice "unknown command" ctx

  dispatch_array : Json.Node J → RelayCtx → Option (RelayCtx × List Sent)
  unfolding dispatch_command notice sub_id_of
  dispatch_array arr ctx =
      if ltb (J.array_size arr) 2
      then notice "array too short" ctx
      else elim (sub_id_of (J.array_item arr 0)) [
        | none ↦ notice "invalid command" ctx
        | some cmd ↦ dispatch_command arr cmd ctx
      ]

  -- router_dispatch.
  pub router_dispatch : Text → RelayCtx → Option (RelayCtx × List Sent)
  unfolding dispatch_array notice
  router_dispatch data_text ctx = elim (J.parse data_text) [
    | none ↦ notice "invalid JSON" ctx
    | some arr ↦ if J.is_array arr then dispatch_array arr ctx else notice "invalid JSON" ctx
  ]

-- on_ws_disconnect.
on_ws_disconnect : ℕ → RelayCtx → RelayCtx
on_ws_disconnect fd ctx = record ctx { sub_manager = Subs.remove_all fd ctx.sub_manager }

-- router_send_event: the text that is sent.
router_send_event : Text → Text → Text
router_send_event sub_id json = codes "[\"EVENT\",\"" ++ sub_id ++ codes "\"," ++ json ++ codes "]"
