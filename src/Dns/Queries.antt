-- ===== src/Dns/Queries.antt =====
-- components/tollgate_core/src/tollgate_core_dns.c: one round of dns_server_task, on the bytes of a
-- datagram. Offsets and lengths stand for the ints of the code.
use tollgate_esp.Prelude.{
  ℕ, zero, suc, ◌+◌, ◌*◌, ◌/◌, ◌%◌, Bool, not, ◌&&◌, Option, none, some, List, [], ◌∷◌, ◌++◌, leb,
  ltb, ◌==◌, if◌then◌else◌, modify, take, length, Text,
}
use tollgate_esp.Gate.State.{Gate}
use tollgate_esp.Gate.Auth.{is_authenticated}
use tollgate_esp.Ehash.Packet.{byte_at, get_u16_be}

-- The inner loop of parse_dns_name, with `left` bytes of the label left.
unfoldable pub copy_label : List ℕ → ℕ → ℕ → ℕ → Text → ℕ × Text
copy_label buf buf_len zero pos out = (pos, out)
copy_label buf buf_len (suc left) pos out =
    if ltb pos buf_len && ltb (length out) 255
    then copy_label buf buf_len left (pos + 1) (out ++ (byte_at buf pos ∷ []))
    else (pos, out)

-- One round of its outer loop: the end, or the next position and what was written so far.
pub data Step : Type 0 where
  ended : Step
  at : ℕ → Text → Step

unfoldable pub pair_at : ℕ × Text → Step
pair_at (pos, out) = at pos out

unfoldable pub dotted : Text → Text
dotted out = if ltb 0 (length out) then out ++ (b'.' ∷ []) else out

unfoldable pub name_step : List ℕ → ℕ → ℕ → Text → Step
unfolding pair_at copy_label dotted
name_step buf buf_len pos out =
    let len = byte_at buf pos in
    if not (ltb pos buf_len && ltb (length out) 255)
    then ended
    else if len == 0
    then ended
    else if len / 64 % 4 == 3
    then at (len % 64 * 256 + byte_at buf (pos + 1)) out
    else pair_at (copy_label buf buf_len len (pos + 1) (dotted out))

-- parse_dns_name for an output of 256 bytes, in at most `fuel` rounds; `none` has not ended by then.
unfoldable pub name_loop : ℕ → List ℕ → ℕ → ℕ → Text → Option Text
name_loop zero buf buf_len pos out = none
name_loop (suc fuel) buf buf_len pos out = elim (name_step buf buf_len pos out) [
  | ended ↦ some out
  | at next text ↦ name_loop fuel buf buf_len next text
]

-- The loop over the labels of the question, at most n rounds since each goes on by a byte.
unfoldable pub skip_labels : ℕ → List ℕ → ℕ → ℕ → ℕ
skip_labels zero buf n q = q
skip_labels (suc k) buf n q =
    if ltb q n && not (byte_at buf q == 0) then skip_labels k buf n (q + (byte_at buf q + 1)) else q

unfoldable pub q_offset : List ℕ → ℕ → ℕ
unfolding skip_labels
q_offset buf n = skip_labels n buf n 12

-- What the round goes on with: a header, a query with a question, and the question's end.
unfoldable pub is_request : List ℕ → ℕ → Bool
unfolding q_offset get_u16_be
is_request buf n =
    leb 12 n
    && get_u16_be buf 2 / 32768 == 0
    && not (get_u16_be buf 4 == 0)
    && leb (q_offset buf n + 5) n

-- The bytes that it reads as the request.
pub request : List ℕ → ℕ → List ℕ
request buf n = take (q_offset buf n + 5) buf

put_u16_at : ℕ → ℕ → List ℕ → List ℕ
put_u16_at i v buf = modify (modify buf i (λ b. v / 256 % 256)) (i + 1) (λ b. v % 256)

-- build_nxdomain.
build_nxdomain : List ℕ → List ℕ
unfolding put_u16_at
build_nxdomain req = put_u16_at 10 0 (put_u16_at 8 0 (put_u16_at 6 0 (put_u16_at 2 0x8403 req)))

-- build_redirect_response: the record of 16 bytes ends in the address as it stands in memory.
build_redirect_response : ℕ → List ℕ → List ℕ
unfolding put_u16_at
build_redirect_response ap_ip req =
    put_u16_at 10 0 (put_u16_at 8 0 (put_u16_at 6 1 (put_u16_at 2 0x8180 req)))
    ++ (0xC0
        ∷ 0x0C
        ∷ 0
        ∷ 1
        ∷ 0
        ∷ 1
        ∷ 0
        ∷ 0
        ∷ 0
        ∷ 10
        ∷ 0
        ∷ 4
        ∷ ap_ip % 256
        ∷ ap_ip / 256 % 256
        ∷ ap_ip / 65536 % 256
        ∷ ap_ip / 16777216 % 256
        ∷ [])

-- What a round does: nothing, a request to the upstream resolver, or an answer.
pub data Reply : Type 0 where
  ignored : Reply
  forwarded : List ℕ → Reply
  answered : List ℕ → Reply

-- The answer to a client that is not authenticated, by the type of its question.
pub hijack : Gate → List ℕ → ℕ → List ℕ
unfolding build_redirect_response build_nxdomain
hijack g buf n =
    if get_u16_be buf (q_offset buf n + 1) == 1
    then build_redirect_response g.ap_ip (request buf n)
    else build_nxdomain (request buf n)

unfoldable pub after_name : Gate → List ℕ → ℕ → Option Text → Option Reply
unfolding hijack
after_name g buf n none = none
after_name g buf n (some name) = some (answered (hijack g buf n))

-- One round of dns_server_task for a datagram of n bytes; `none` is a round that has not ended.
unfoldable pub handle_query : ℕ → Gate → ℕ → List ℕ → ℕ → Option Reply
unfolding after_name name_loop
handle_query fuel g client_ip buf n =
    if not (is_request buf n)
    then some ignored
    else if is_authenticated client_ip g
    then some (forwarded (request buf n))
    else after_name g buf n (name_loop fuel buf n 12 [])
