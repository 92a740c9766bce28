-- ===== src/Dns/Answers.antt =====
-- tollgate_core_dns.c and tollgate_core_firewall.c: who is answered by the upstream resolver.
use tollgate_esp.Prelude.{
  ℕ, ◌<◌, ◌≡◌, refl, sym, ap, ◌∙◌, true, false, none, some, List, [], ltb, if◌then◌else◌, Text,
  arith, Bool-cases, inl, inr,
}
use tollgate_esp.Gate.State.{Gate}
use tollgate_esp.Gate.Auth.{is_authenticated, is_authenticated-occ}
use tollgate_esp.Gate.Firewall.{fw_is_allowed, fw_is_allowed-occ}
use tollgate_esp.Gate.Invariant.{IsSound, InStep}
use tollgate_esp.Ehash.Packet.{byte_at}
use tollgate_esp.Dns.Names.{name_loop_stuck}
use tollgate_esp.Dns.Queries.{
  name_loop, is_request, request, forwarded, answered, hijack, after_name, handle_query,
}

-- The resolver and the firewall let the same addresses through.
is_authenticated-allowed :
    (ip : ℕ) (g : Gate) → IsSound g → is_authenticated ip g ≡ fw_is_allowed ip g
is_authenticated-allowed ip g v =
    is_authenticated-occ ip g
    ∙ ap (ltb 0) (InStep.agree (IsSound.in_step v) ip)
    ∙ sym (fw_is_allowed-occ ip g)

-- In a sound state, a request whose name can be read is passed to the upstream resolver if the
-- firewall lets its sender through, and otherwise answered with the gate's own answer.
pub handle_query_lem :
    (fuel : ℕ) (g : Gate) (ip : ℕ) (buf : List ℕ) (n : ℕ) (name : Text)
    → IsSound g
    → is_request buf n ≡ true
    → name_loop fuel buf n 12 [] ≡ some name
    → handle_query fuel g ip buf n
      ≡ some (if fw_is_allowed ip g then forwarded (request buf n) else answered (hijack g buf n))
unfolding handle_query after_name
handle_query_lem fuel g ip buf n name v ask read = elim (Bool-cases (fw_is_allowed ip g)) [
  | inl yes_ ↦ rw (ask, is_authenticated-allowed ip g v, yes_) refl
  | inr no_ ↦ rw (ask, is_authenticated-allowed ip g v, no_) (rw (read, after_name) refl)
]

-- A request of a client that is not authenticated, whose name is a compression pointer to its own
-- place, is never answered: the round does not end within any number of steps.
pub handle_query_hangs :
    (fuel : ℕ) (g : Gate) (ip : ℕ) (buf : List ℕ) (n : ℕ)
    → is_request buf n ≡ true
    → is_authenticated ip g ≡ false
    → 12 < n
    → byte_at buf 12 ≡ 192
    → byte_at buf 13 ≡ 12
    → handle_query fuel g ip buf n ≡ none
unfolding handle_query after_name
handle_query_hangs fuel g ip buf n ask unknown inside high low =
    let stuck =
      name_loop_stuck fuel buf n 12 [] inside (omega arith) (ground (arith, high))
        (omega (arith, high, low)) in
    rw (ask, unknown) (rw (stuck, after_name) refl)
