-- ===== src/Client/Machine/Expired.antt =====
-- main/tollgate_client.c: the ticks of the client once its session with the upstream gate has ended,
-- as main/tollgate_api.c answers its requests for the usage then.
use tollgate_esp.Prelude.{
  ◌≡◌, refl, ap, ◌∙◌, false, none, some, List, [], ◌∷◌, ◌++◌, if_no, is_empty, option_some, Text,
}
use tollgate_esp.Prelude.Int.{ℤ, negsuc}
use tollgate_esp.Client.Usage.{format_usage, parse_usage, parse_usage-none}
use tollgate_esp.Client.Parse.{Json}
use tollgate_esp.Client.Machine.{
  Client, ClientConfig, Stepped, World, ok_body, paid, queried, renewed_if_due, should_renew,
  client_tick, tick_in, tick_paid,
}

-- Several ticks, with the tokens that left the wallet.
pub client_ticks : (J : Json) → ClientConfig → List World → Client → Stepped
client_ticks js cfg [] c = record { client = c; spent = [] }
client_ticks js cfg (w ∷ ws) c =
    let first = client_tick js cfg w c in
    let rest = client_ticks js cfg ws first.client in
    record { client = rest.client; spent = first.spent ++ rest.spent }

-- Every request for the usage is answered as a gate answers an address without an active session.
pub data HasEnded : List World → Type 0 where
  ended_nil : HasEnded []
  ended_cons :
      (w : World) (ws : List World) (metric : Text) (now_ms : ℤ)
      → w.usage_reply ≡ some (200, format_usage none metric now_ms)
      → HasEnded ws
      → HasEnded (w ∷ ws)

module _ (J : Json) (cfg : ClientConfig) (w : World) (c : Client) where
  queried_ended :
      (metric : Text) (now_ms : ℤ)
      → w.usage_reply ≡ some (200, format_usage none metric now_ms)
      → queried J w c ≡ record c { remaining_ms = negsuc 0; allotment_ms = negsuc 0 }
  unfolding queried ok_body
  queried_ended metric now_ms reply =
      option_some (ok_body w.usage_reply) c _ (format_usage none metric now_ms) (ap ok_body reply)
      ∙ option_some (parse_usage (format_usage none metric now_ms)) c _ (negsuc 0, negsuc 0)
          (parse_usage-none metric now_ms)

  tick_paid_ended :
      (metric : Text) (now_ms : ℤ)
      → w.usage_reply ≡ some (200, format_usage none metric now_ms)
      → is_empty c.gw_ip ≡ false
      → tick_paid J cfg w c ≡ record {
        client = record c { remaining_ms = negsuc 0; allotment_ms = negsuc 0 };
        spent = [];
      }
  unfolding tick_paid renewed_if_due should_renew
  tick_paid_ended metric now_ms reply named =
      if_no (is_empty c.gw_ip) _ _ named
      ∙ ap (renewed_if_due J cfg w) (queried_ended metric now_ms reply)

  tick_ended :
      (metric : Text) (now_ms : ℤ)
      → w.usage_reply ≡ some (200, format_usage none metric now_ms)
      → c.state ≡ paid
      → is_empty c.gw_ip ≡ false
      → client_tick J cfg w c ≡ record {
        client = record c { remaining_ms = negsuc 0; allotment_ms = negsuc 0 };
        spent = [];
      }
  unfolding client_tick tick_in
  tick_ended metric now_ms reply in_paid named =
      ap (λ s. tick_in J s cfg w c) in_paid ∙ tick_paid_ended metric now_ms reply named

-- Once a client that has paid finds that the upstream gate has no session for it any more, which
-- the gate says with "-1/-1", it stays in the state of a client that has paid and pays nothing, for
-- as many ticks as this is the answer.
pub client_ticks-HasEnded :
    (J : Json) (cfg : ClientConfig) (ws : List World) (c : Client)
    → HasEnded ws
    → c.state ≡ paid
    → is_empty c.gw_ip ≡ false
    → ((client_ticks J cfg ws c).client.state ≡ paid) × ((client_ticks J cfg ws c).spent ≡ [])
unfolding client_ticks
client_ticks-HasEnded js cfg [] c ended_nil in_paid named = (in_paid, refl)
client_ticks-HasEnded js cfg (w ∷ ws) c (ended_cons _ _ metric now_ms reply more) in_paid named =
    let one = tick_ended js cfg w c metric now_ms reply in_paid named in
    let next = record c { remaining_ms = negsuc 0; allotment_ms = negsuc 0 } in
    let (same, nothing) = client_ticks-HasEnded js cfg ws next more in_paid named in
    (
      ap (λ (s : Stepped). (client_ticks js cfg ws s.client).client.state) one ∙ same,
      ap (λ (s : Stepped). s.spent ++ (client_ticks js cfg ws s.client).spent) one ∙ nothing,
    )
