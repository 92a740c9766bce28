-- ===== src/Tests/Dns.antt =====
-- The theorems on the resolver at concrete inputs.
use tollgate_esp.Prelude.{
  ℕ, ◌≡◌, refl, true, false, none, some, List, [], ◌∷◌, ◌++◌, replicate, codes, count_if,
  find_index, arith, if◌then◌else◌, Text,
}
use tollgate_esp.Gate.Auth.{is_authenticated}
use tollgate_esp.Gate.Firewall.{fw_is_allowed, fw_init}
use tollgate_esp.Gate.Session.{session_init}
use tollgate_esp.Gate.Owner.{core_init}
use tollgate_esp.Gate.Invariant.{IsPaidOnly}
use tollgate_esp.Ehash.Packet.{byte_at, get_u16_be}
use tollgate_esp.Dns.Queries.{
  name_loop, name_step, copy_label, dotted, pair_at, is_request, request, q_offset, skip_labels,
  forwarded, answered, hijack, handle_query,
}
use tollgate_esp.Dns.Names.{is_pointer, name_loop_ends}
use tollgate_esp.Dns.Answers.{handle_query_lem, handle_query_hangs}
use tollgate_esp.System.Histories.{paid_run-IsPaidOnly}
use tollgate_esp.Tests.World.{json, services, gate_ip, client_ip, started, one_paid, served}

abbrev header : List ℕ
header = 18 ∷ 52 ∷ 1 ∷ 0 ∷ 0 ∷ 1 ∷ 0 ∷ 0 ∷ 0 ∷ 0 ∷ 0 ∷ 0 ∷ []

-- The question for the address of a.b.
abbrev query : List ℕ
query = header ++ (1 ∷ b'a' ∷ 1 ∷ b'b' ∷ 0 ∷ 0 ∷ 1 ∷ 0 ∷ 1 ∷ [])

-- A name that is a pointer to itself, and zeros behind it.
abbrev pointing : List ℕ
pointing = header ++ (192 ∷ 12 ∷ replicate 200 0)

query-request : is_request query 21 ≡ true
unfolding is_request q_offset skip_labels get_u16_be byte_at
query-request = refl

query-name : name_loop 22 query 21 12 [] ≡ some (codes "a.b")
unfolding name_loop name_step copy_label dotted pair_at byte_at
query-name = refl

handle_query_lem_example :
    handle_query 22 served client_ip query 21
    ≡ some (
        if fw_is_allowed client_ip served
        then forwarded (request query 21)
        else answered (hijack served query 21))
handle_query_lem_example =
    handle_query_lem 22 served client_ip query 21 (codes "a.b")
      (IsPaidOnly.sound (paid_run-IsPaidOnly json services gate_ip one_paid)) query-request
      query-name

no_pointers : count_if is_pointer query ≡ 0
unfolding count_if is_pointer
no_pointers = refl

name_loop_ends_example : (name : Text) × (name_loop 10 query 21 12 [] ≡ some name)
name_loop_ends_example = name_loop_ends 10 query 21 12 [] no_pointers (omega arith)

pointing-request : is_request pointing 214 ≡ true
unfolding is_request q_offset skip_labels get_u16_be byte_at
pointing-request = refl

stranger : is_authenticated client_ip started ≡ false
unfolding is_authenticated core_init session_init fw_init find_index
stranger = refl

pointing-bytes : (byte_at pointing 12 ≡ 192) × (byte_at pointing 13 ≡ 12)
unfolding byte_at
pointing-bytes = (refl, refl)

handle_query_hangs_example : handle_query 1000 started client_ip pointing 214 ≡ none
handle_query_hangs_example =
    handle_query_hangs 1000 started client_ip pointing 214 pointing-request stranger (omega arith)
      pointing-bytes.0 pointing-bytes.1
