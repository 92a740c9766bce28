-- ===== src/Ehash/RoundTrip.antt =====
-- components/ehash_relay: packing, then unpacking.
use tollgate_esp.Prelude.{
  ℕ, zero, suc, ◌+◌, ◌≤◌, ◌<◌, ◌≡◌, refl, sym, ap, ◌∙◌, true, List, [], ◌∷◌, ◌++◌, ltb,
  if◌then◌else◌, take, drop, length, arith, Option, none, some, length-append,
}
use tollgate_esp.Ehash.Packet.{
  Packet, ok, put_u16_be, put_u32_be, byte_at, get_u16_be, get_u32_be, calc_crc, crc_bytes,
  msg_type_is_valid, checked_region, bytes_of, is_null, pack_into, pack, validate_crc, unpack,
}
use tollgate_esp.Ehash.Bytes.{
  take-prefix, take-whole, byte_at-append, calc_crc-lt, u16_round_trip, u32_round_trip,
}

-- The packet with these fields, its payload the first bytes of a buffer, or NULL without any.
abbrev pub packet_of : ℕ → ℕ → ℕ → ℕ → ℕ → List ℕ → Packet
packet_of t h m s n buf = record {
  msg_type = t;
  hop_count = h;
  max_hops = m;
  sender_id = s;
  payload_len = n;
  payload = if ltb 0 n then some (take n buf) else none;
}

length-take : (xs : List ℕ) (n : ℕ) → n ≤ length xs → length (take n xs) ≡ n
length-take xs zero h = refl
length-take [] (suc n) h = absurd (omega arith)
length-take (x ∷ xs) (suc n) h = omega (arith, length-take xs n)

length-checked_region :
    (t h m s : ℕ) (payload : List ℕ) (n : ℕ)
    → n ≤ length payload
    → length (checked_region t h m s payload n) ≡ 9 + n
unfolding checked_region put_u32_be put_u16_be
length-checked_region t h m s payload n fits = omega (arith, length-take payload n fits)

-- A number written behind a buffer is read back there.
get_u16_be-put :
    (region : List ℕ) (n v : ℕ)
    → length region ≡ n
    → v < 65536
    → get_u16_be (region ++ put_u16_be v) n ≡ v
unfolding get_u16_be put_u16_be byte_at
get_u16_be-put region n v len small =
    let high = byte_at-append region (put_u16_be v) 0 n (omega arith) in
    let low = byte_at-append region (put_u16_be v) 1 (n + 1) (omega arith) in
    omega (arith, high, low)

-- A checksum behind the region it was computed from is found right.
calc_crc-sealed :
    (region : List ℕ) (n : ℕ)
    → length region ≡ n
    → calc_crc (region ++ put_u16_be (calc_crc region n)) n
      ≡ get_u16_be (region ++ put_u16_be (calc_crc region n)) n
unfolding calc_crc
calc_crc-sealed region n len =
    ap (crc_bytes 0xFFFF)
      (take-prefix region (put_u16_be (calc_crc region n)) n len ∙ sym (take-whole region n len))
    ∙ sym (get_u16_be-put region n (calc_crc region n) len (calc_crc-lt region n))

validate_crc-sealed :
    (buf : List ℕ) (n : ℕ)
    → get_u16_be buf 7 ≡ n
    → calc_crc buf (9 + n) ≡ get_u16_be buf (9 + n)
    → validate_crc buf (9 + n + 2) ≡ true
unfolding validate_crc
validate_crc-sealed buf n len same = rw len (ground arith)

-- A buffer that passes every check is unpacked to its fields.
unpack_accepts :
    (buf : List ℕ) (n : ℕ)
    → get_u16_be buf 7 ≡ n
    → length buf ≡ 9 + n + 2
    → msg_type_is_valid (byte_at buf 0) ≡ true
    → calc_crc buf (9 + n) ≡ get_u16_be buf (9 + n)
    → unpack buf (length buf)
      ≡ ok (
          packet_of
            (byte_at buf 0)
            (byte_at buf 1)
            (byte_at buf 2)
            (get_u32_be buf 3)
            n
            (drop 9 buf))
unfolding unpack
unpack_accepts buf n len whole valid same =
    ground (arith, len, whole, valid, validate_crc-sealed buf n len same)

pack_into-ok :
    (t h m s : ℕ) (payload : Option (List ℕ)) (n size : ℕ)
    → msg_type_is_valid t ≡ true
    → n ≤ length (bytes_of payload)
    → 9 + n + 2 ≤ size
    → let region = checked_region t h m s (bytes_of payload) n in
      pack_into t h m s payload n size ≡ ok (region ++ put_u16_be (calc_crc region (9 + n)))
unfolding pack_into bytes_of is_null
pack_into-ok t h m s none n size valid fits room = ground (arith, valid)
pack_into-ok t h m s (some bs) n size valid fits room = ground (arith, valid)

-- What stands behind the header is read from its place.
module _ (t h m s : ℕ) (payload : List ℕ) (n : ℕ) (tail : List ℕ) where
  pub on_wire : List ℕ
  on_wire = checked_region t h m s payload n ++ tail

  pub on_wire-first : (byte_at on_wire 0 ≡ t) × (byte_at on_wire 1 ≡ h) × (byte_at on_wire 2 ≡ m)
  unfolding on_wire checked_region put_u32_be put_u16_be byte_at
  on_wire-first = (refl, refl, refl)

  pub on_wire-len : n < 65536 → get_u16_be on_wire 7 ≡ n
  unfolding on_wire checked_region put_u32_be put_u16_be byte_at get_u16_be
  on_wire-len short = u16_round_trip n short

  pub on_wire-sender : s < 4294967296 → get_u32_be on_wire 3 ≡ s
  unfolding on_wire checked_region put_u32_be put_u16_be byte_at get_u32_be
  on_wire-sender small = u32_round_trip s small

  pub on_wire-payload : n ≤ length payload → take n (drop 9 on_wire) ≡ take n payload
  unfolding on_wire checked_region put_u32_be put_u16_be
  on_wire-payload fits = take-prefix (take n payload) tail n (length-take payload n fits)

  pub fields :
      s < 4294967296
      → n ≤ length payload
      → packet_of
          (byte_at on_wire 0)
          (byte_at on_wire 1)
          (byte_at on_wire 2)
          (get_u32_be on_wire 3)
          n
          (drop 9 on_wire)
        ≡ packet_of t h m s n payload
  fields small fits =
      rw
        (
          on_wire-first.0,
          on_wire-first.1,
          on_wire-first.2,
          on_wire-sender small,
          on_wire-payload fits,
        )
        refl

-- A call of pack with a known message type, a payload of at least the length given (or none of
-- length 0) and a buffer with room for the packet succeeds, and unpacking what it wrote gives back
-- every field and the payload.
pub unpack-pack :
    (t h m s : ℕ) (payload : Option (List ℕ)) (n size : ℕ)
    → msg_type_is_valid t ≡ true
    → s < 4294967296
    → n < 65536
    → n ≤ length (bytes_of payload)
    → 9 + n + 2 ≤ size
    → (bs : List ℕ) × (pack t h m s payload n (some size) ≡ ok bs)
      × (unpack bs (length bs) ≡ ok (packet_of t h m s n (bytes_of payload)))
unfolding on_wire put_u16_be pack
unpack-pack t h m s payload n size valid small short fits room =
    let region = checked_region t h m s (bytes_of payload) n in
    let tail = put_u16_be (calc_crc region (9 + n)) in
    let len = length-checked_region t h m s (bytes_of payload) n fits in
    (
      on_wire t h m s (bytes_of payload) n tail,
      pack_into-ok t h m s payload n size valid fits room,
      unpack_accepts (on_wire t h m s (bytes_of payload) n tail) n
            (on_wire-len t h m s (bytes_of payload) n tail short)
            (length-append region tail ∙ ap (λ k. k + 2) len)
            (ap msg_type_is_valid ((on_wire-first t h m s (bytes_of payload) n tail).0) ∙ valid)
            (calc_crc-sealed region (9 + n) len)
          ∙ ap ok (fields t h m s (bytes_of payload) n tail small fits),
    )
