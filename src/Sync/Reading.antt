-- ===== src/Sync/Reading.antt =====
-- main/sync_manager.c: a frame that was written is read back, and what the read asks for.
use tollgate_esp.Prelude.{
  ℕ, zero, suc, ◌-◌, ◌/◌, ◌%◌, ◌<◌, ◌≤◌, ◌≡◌, refl, ap, ◌∙◌, inl, inr, false, List, [], ◌∷◌, ◌++◌,
  ltb, leb, ◌==◌, if◌then◌else◌, if_yes, if_no, take, drop, length, Bool-cases, append_assoc, arith,
  bit_xor,
}
use tollgate_esp.Prelude.Int.{pos}
use tollgate_esp.Ehash.Packet.{byte_at, get_u16_be, put_u16_be}
use tollgate_esp.Sync.Frames.{
  Conn, taken_text, capped, conn_read, frame_header, header_read, over, payload_read, read_payload,
  read_size, rounds, to_size, unmask, with_len, with_mask, word_read, ws_read_text, ws_send_text,
  xor_byte,
}

take_append : (xs ys : List ℕ) → take (length xs) (xs ++ ys) ≡ xs
take_append [] ys = refl
take_append (x ∷ xs) ys = ap (λ zs. x ∷ zs) (take_append xs ys)

drop_append : (xs ys : List ℕ) → drop (length xs) (xs ++ ys) ≡ ys
drop_append [] ys = refl
drop_append (x ∷ xs) ys = drop_append xs ys

no_mask : (i : ℕ) → byte_at (0 ∷ 0 ∷ 0 ∷ 0 ∷ []) i ≡ 0
unfolding byte_at
no_mask zero = refl
no_mask (suc zero) = refl
no_mask (suc (suc zero)) = refl
no_mask (suc (suc (suc zero))) = refl
no_mask (suc (suc (suc (suc i)))) = refl

unmask_zero : (i : ℕ) (bs : List ℕ) → unmask (0 ∷ 0 ∷ 0 ∷ 0 ∷ []) i bs ≡ bs
unfolding unmask xor_byte
unmask_zero i [] = refl
unmask_zero i (b ∷ bs) =
    ap (λ m. (if m == 0 then b else bit_xor b m) ∷ unmask (0 ∷ 0 ∷ 0 ∷ 0 ∷ []) (suc i) bs)
      (no_mask (i % 4))
    ∙ ap (λ cs. b ∷ cs) (unmask_zero (suc i) bs)

capped_fits : (n buf_len : ℕ) → n < buf_len → capped (pos n) buf_len ≡ pos n
unfolding capped
capped_fits n buf_len fits = if_no (ltb (buf_len - 1) n) _ _ (ground (arith, fits))

-- A read that is given all of the bytes it asks for.
read_all :
    (xs rest : List ℕ) (gives : ℕ → ℕ)
    → length xs ≤ gives 0
    → conn_read (length xs) (record { incoming = xs ++ rest; gives = gives })
      ≡ (xs, record { incoming = rest; gives = λ i. gives (suc i) })
unfolding conn_read read_size
read_all xs rest gives enough =
    let whole = if_no (ltb (gives 0) (length xs)) (gives 0) (length xs) (ground (arith, enough)) in
    let after : List ℕ → Conn = λ left. record { incoming = left; gives = λ i. gives (suc i) } in
    ap (λ n. (take n (xs ++ rest), after (drop n (xs ++ rest)))) whole
    ∙ ap (λ got. (got, after (drop (length xs) (xs ++ rest)))) (take_append xs rest)
    ∙ ap (λ left. (xs, after left)) (drop_append xs rest)

-- The bytes of a text that is read whole, in the buffer.
payload_whole :
    (body buf : List ℕ) (after : Conn)
    → payload_read (0 ∷ 0 ∷ 0 ∷ 0 ∷ []) (pos (length body)) buf (body, after)
      ≡ taken_text (length body) (pos (length body)) body after
unfolding payload_read rounds to_size over
payload_whole body buf after =
    let n = length body in
    ap (λ bs. taken_text n (pos n) bs after)
      (ap (unmask (0 ∷ 0 ∷ 0 ∷ 0 ∷ []) 0) (take_append body (drop n buf)) ∙ unmask_zero 0 body)

read_whole :
    (body more buf : List ℕ) (gives : ℕ → ℕ)
    → length body < length buf
    → length body ≤ gives 0
    → with_mask false (pos (length body)) buf (record { incoming = body ++ more; gives = gives })
      ≡ taken_text
          (length body)
          (pos (length body))
          body
          (record { incoming = more; gives = λ i. gives (suc i) })
unfolding with_mask read_payload to_size
read_whole body more buf gives fits enough =
    let conn : Conn = record { incoming = body ++ more; gives = gives } in
    ap (λ len. read_payload (0 ∷ 0 ∷ 0 ∷ 0 ∷ []) len buf conn)
      (capped_fits (length body) (length buf) fits)
    ∙ ap (payload_read (0 ∷ 0 ∷ 0 ∷ 0 ∷ []) (pos (length body)) buf)
        (read_all body more gives enough)
    ∙ payload_whole body buf (record { incoming = more; gives = λ i. gives (suc i) })

-- The header of a frame that is not masked.
read_started :
    (h : ℕ) (rest buf : List ℕ) (gives : ℕ → ℕ)
    → h < 128
    → 2 ≤ gives 0
    → ws_read_text buf (record { incoming = 0x81 ∷ (h ∷ rest); gives = gives })
      ≡ with_len h false buf (record { incoming = rest; gives = λ i. gives (suc i) })
unfolding ws_read_text header_read
read_started h rest buf gives small enough =
    let same : h % 128 ≡ h = omega (arith, small) in
    let unmasked : leb 128 h ≡ false = ground (arith, small) in
    let after : Conn = record { incoming = rest; gives = λ i. gives (suc i) } in
    ap (header_read buf) (read_all (0x81 ∷ h ∷ []) rest gives enough)
    ∙ ap (λ m. with_len m (leb 128 h) buf after) same
    ∙ ap (λ b. with_len h b buf after) unmasked

-- The bytes that hold a length of 16 bits.
word_whole :
    (n : ℕ) (rest buf : List ℕ) (gives : ℕ → ℕ)
    → n ≤ 65535
    → 2 ≤ gives 0
    → with_len 126 false buf (record { incoming = put_u16_be n ++ rest; gives = gives })
      ≡ with_mask false (pos n) buf (record { incoming = rest; gives = λ i. gives (suc i) })
unfolding with_len word_read get_u16_be put_u16_be byte_at
word_whole n rest buf gives small enough =
    let after : Conn = record { incoming = rest; gives = λ i. gives (suc i) } in
    ap (word_read false buf) (read_all (n / 256 % 256 ∷ n % 256 ∷ []) rest gives enough)
    ∙ ap (λ m. with_mask false (pos m) buf after) (omega (arith, small))

with_len-short :
    (n : ℕ) (buf : List ℕ) (conn : Conn)
    → n ≤ 125
    → with_len n false buf conn ≡ with_mask false (pos n) buf conn
unfolding with_len
with_len-short n buf conn small =
    if_no (n == 126) _ _ (ground (arith, small)) ∙ if_no (n == 127) _ _ (ground (arith, small))

header_short : (len : ℕ) → len ≤ 125 → frame_header len ≡ 0x81 ∷ len ∷ []
unfolding frame_header
header_short len h = if_yes (leb len 125) _ _ (ground (arith, h))

header_long :
    (len : ℕ) → leb len 125 ≡ false → len ≤ 65535 → frame_header len ≡ 0x81 ∷ 126 ∷ put_u16_be len
unfolding frame_header
header_long len is_long h = if_no _ _ _ is_long ∙ if_yes (leb len 65535) _ _ (ground (arith, h))

-- Where every read gives at least n bytes if it asks for as many, for an n from 2 to 65535, a text of at
-- most n bytes that ws_send_text writes is read back by ws_read_text, into a buffer with room for it
-- and its end: its length is returned, the buffer has all of its bytes, and what follows the frame
-- is left on the connection.
pub ws_read_text-ws_send_text :
    (n : ℕ) (body more buf : List ℕ) (gives : ℕ → ℕ)
    → 2 ≤ n
    → n ≤ 65535
    → ((i : ℕ) → n ≤ gives i)
    → length body ≤ n
    → length body < length buf
    → (after : Conn) × (ws_read_text buf
          (record { incoming = ws_send_text body ++ more; gives = gives })
        ≡ taken_text (length body) (pos (length body)) body after)
      × (after.incoming ≡ more)
unfolding ws_send_text
ws_read_text-ws_send_text n body more buf gives two top enough short fits =
    let len = length body in
    let from : List ℕ → Conn = λ bs. record { incoming = bs; gives = gives } in
    elim (Bool-cases (leb len 125)) [
      | inl is_short ↦
          let small : len ≤ 125 = ground (arith, is_short) in
          (
            record { incoming = more; gives = λ i. gives (suc (suc i)) },
            ap (λ hs. ws_read_text buf (from ((hs ++ body) ++ more))) (header_short len small)
                ∙ read_started len (body ++ more) buf gives (omega (arith, small))
                    (omega (arith, two, enough 0))
                ∙ with_len-short len buf _ small
                ∙ read_whole body more buf (λ i. gives (suc i)) fits
                    (omega (arith, short, enough 1)),
            refl,
          )
      | inr is_long ↦ (
        record { incoming = more; gives = λ i. gives (suc (suc (suc i))) },
        ap (λ hs. ws_read_text buf (from ((hs ++ body) ++ more)))
              (header_long len is_long (omega (arith, short, top)))
            ∙ read_started 126 ((put_u16_be len ++ body) ++ more) buf gives (omega arith)
                (omega (arith, two, enough 0))
            ∙ ap
                (λ bs.
                  with_len 126 false buf (record { incoming = bs; gives = λ i. gives (suc i) }))
                (append_assoc (put_u16_be len) body more)
            ∙ word_whole len (body ++ more) buf (λ i. gives (suc i)) (omega (arith, short, top))
                (omega (arith, two, enough 1))
            ∙ read_whole body more buf (λ i. gives (suc (suc i))) fits
                (omega (arith, short, enough 2)),
        refl,
      )
    ]
