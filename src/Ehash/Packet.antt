-- ===== src/Ehash/Packet.antt =====
-- components/ehash_relay: the wire format, its checksum, and forwarding.
use Prim.Native.Nat.{bit_xor}
use tollgate_esp.Prelude.{
  ℕ, zero, suc, ◌+◌, ◌*◌, ◌/◌, ◌%◌, Bool, true, false, not, ◌&&◌, Option, none, some, List, [], ◌∷◌,
  ◌++◌, leb, ltb, ◌==◌, if◌then◌else◌, take, drop,
}

-- The EHASH_ERR_* codes that the code returns.
pub data EhashError : Type 0 where
  invalid_arg : EhashError
  buffer_too_small : EhashError
  invalid_packet : EhashError
  crc_mismatch : EhashError
  max_hops_exceeded : EhashError
  bad_msg_type : EhashError

pub data Result {ℓ} (A : Type ℓ) : Type ℓ where
  ok : A → Result A
  err : EhashError → Result A

-- ehash_packet_t; the payload is the bytes that its pointer shows.
pub record Packet : Type 0 where
  pub msg_type : ℕ
  pub hop_count : ℕ
  pub max_hops : ℕ
  pub sender_id : ℕ
  pub payload_len : ℕ
  pub payload : Option (List ℕ)

-- put_u16_be and put_u32_be: the bytes they write.
unfoldable pub put_u16_be : ℕ → List ℕ
put_u16_be v = v / 256 % 256 ∷ v % 256 ∷ []

unfoldable pub put_u32_be : ℕ → List ℕ
put_u32_be v = v / 16777216 % 256 ∷ v / 65536 % 256 ∷ v / 256 % 256 ∷ v % 256 ∷ []

-- A read of p[i], inside the buffer wherever the code makes it.
unfoldable pub byte_at : List ℕ → ℕ → ℕ
byte_at [] i = 0
byte_at (b ∷ bs) zero = b
byte_at (b ∷ bs) (suc i) = byte_at bs i

-- get_u16_be and get_u32_be at an offset; on bytes the `|` of shifted values is their sum.
unfoldable pub get_u16_be : List ℕ → ℕ → ℕ
get_u16_be p i = byte_at p i * 256 + byte_at p (i + 1)

unfoldable pub get_u32_be : List ℕ → ℕ → ℕ
get_u32_be p i =
    byte_at p i * 16777216 + byte_at p (i + 1) * 65536 + byte_at p (i + 2) * 256 + byte_at p (i + 3)

-- The inner loop of ehash_packet_calc_crc, on a uint16_t.
unfoldable pub crc_bits : ℕ → ℕ → ℕ
crc_bits zero crc = crc
crc_bits (suc n) crc =
    crc_bits n (if crc / 32768 % 2 == 1 then bit_xor (crc * 2) 0x1021 % 65536 else crc * 2 % 65536)

unfoldable pub crc_bytes : ℕ → List ℕ → ℕ
unfolding crc_bits
crc_bytes crc [] = crc
crc_bytes crc (b ∷ bs) = crc_bytes (crc_bits 8 (bit_xor crc (b * 256) % 65536)) bs

-- ehash_packet_calc_crc, over the first `len` bytes.
unfoldable pub calc_crc : List ℕ → ℕ → ℕ
unfolding crc_bytes
calc_crc buf len = crc_bytes 0xFFFF (take len buf)

-- ehash_msg_type_is_valid.
unfoldable pub msg_type_is_valid : ℕ → Bool
msg_type_is_valid t = leb 1 t && ltb t 4

-- The bytes before the checksum: the header of nine bytes, and the payload.
unfoldable pub checked_region : ℕ → ℕ → ℕ → ℕ → List ℕ → ℕ → List ℕ
unfolding put_u32_be put_u16_be
checked_region msg_type hop_count max_hops sender_id payload payload_len =
    (msg_type ∷ hop_count ∷ max_hops ∷ put_u32_be sender_id ++ put_u16_be payload_len)
    ++ take payload_len payload

unfoldable pub bytes_of : Option (List ℕ) → List ℕ
bytes_of none = []
bytes_of (some bs) = bs

unfoldable pub is_null : Option (List ℕ) → Bool
is_null none = true
is_null (some bs) = false

-- ehash_packet_pack with an out_buf, and its size.
unfoldable pub pack_into : ℕ → ℕ → ℕ → ℕ → Option (List ℕ) → ℕ → ℕ → Result (List ℕ)
unfolding checked_region put_u16_be calc_crc msg_type_is_valid bytes_of is_null
pack_into msg_type hop_count max_hops sender_id payload payload_len buf_size =
    if ltb 0 payload_len && is_null payload
    then err invalid_arg
    else if not (msg_type_is_valid msg_type)
    then err bad_msg_type
    else if ltb buf_size (9 + payload_len + 2)
    then err buffer_too_small
    else let region =
        checked_region msg_type hop_count max_hops sender_id (bytes_of payload) payload_len in
      ok (region ++ put_u16_be (calc_crc region (9 + payload_len)))

-- ehash_packet_pack: the bytes written to out_buf, whose size is the last argument, `none` for NULL.
unfoldable pub pack : ℕ → ℕ → ℕ → ℕ → Option (List ℕ) → ℕ → Option ℕ → Result (List ℕ)
pack msg_type hop_count max_hops sender_id payload payload_len none = err invalid_arg
pack msg_type hop_count max_hops sender_id payload payload_len (some buf_size) =
    pack_into msg_type hop_count max_hops sender_id payload payload_len buf_size

-- ehash_packet_validate_crc, for a buffer that is not NULL.
unfoldable pub validate_crc : List ℕ → ℕ → Bool
unfolding get_u16_be calc_crc
validate_crc buf buf_len =
    if ltb buf_len 11
    then false
    else let payload_len = get_u16_be buf 7 in
      if ltb buf_len (9 + payload_len + 2)
      then false
      else calc_crc buf (9 + payload_len) == get_u16_be buf (9 + payload_len)

-- ehash_packet_unpack, for pointers that are not NULL.
unfoldable pub unpack : List ℕ → ℕ → Result Packet
unfolding get_u16_be get_u32_be byte_at msg_type_is_valid validate_crc
unpack buf buf_len =
    let payload_len = get_u16_be buf 7 in
    if ltb buf_len 9
    then err invalid_packet
    else if not (msg_type_is_valid (byte_at buf 0))
    then err bad_msg_type
    else if ltb buf_len (9 + payload_len + 2)
    then err invalid_packet
    else if not (validate_crc buf (9 + payload_len + 2))
    then err crc_mismatch
    else ok (record {
      msg_type = byte_at buf 0;
      hop_count = byte_at buf 1;
      max_hops = byte_at buf 2;
      sender_id = get_u32_be buf 3;
      payload_len = payload_len;
      payload = if ltb 0 payload_len then some (take payload_len (drop 9 buf)) else none;
    })

-- ehash_relay_forward: the packet afterwards, and the error; the counter of hops is a uint8_t.
unfoldable pub relay_forward : Packet → ℕ → Packet × Option EhashError
relay_forward packet next_hop_id =
    let hops = (packet.hop_count + 1) % 256 in
    (
      record packet { hop_count = hops; sender_id = next_hop_id },
      if ltb packet.max_hops hops then some max_hops_exceeded else none,
    )
