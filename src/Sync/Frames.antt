-- ===== src/Sync/Frames.antt =====
-- main/sync_manager.c: the address of a relay, and the frames that are written and read.
use Prim.Native.Nat.{bit_xor}
use tollgate_esp.Prelude.{
  ℕ, suc, ◌+◌, ◌-◌, ◌/◌, ◌%◌, ◌^◌, Bool, Option, none, some, List, [], ◌∷◌, ◌++◌, ltb, leb, ◌==◌,
  if◌then◌else◌, take, drop, length, find_index, Text, codes, text_eq,
}
use tollgate_esp.Prelude.Int.{ℤ, pos, negsuc}
use tollgate_esp.Prelude.Numbers.{atoi}
use tollgate_esp.Ehash.Packet.{byte_at, get_u16_be, get_u32_be, put_u16_be, put_u32_be}

-- Where ws_connect connects to.
pub record Target : Type 0 where
  pub host : Text
  pub port : ℤ
  pub path : Text

without_scheme : Text → Text
without_scheme url = if text_eq (take 6 url) (codes "wss://") then drop 6 url else url

-- `*colon = '\0'; port = atoi(colon + 1)`, at the first colon of the host.
with_port : Option ℕ → Target → Target
with_port none t = t
with_port (some i) t = record t { host = take i t.host; port = atoi (drop (i + 1) t.host) }

-- The first part of ws_connect.
unfoldable pub ws_target : Text → Target
unfolding without_scheme with_port
ws_target wss_url =
    let url = without_scheme wss_url in
    let whole : Target = elim (find_index (λ c. c == b'/') url) [
      | none ↦ record { host = take 127 url; port = pos 443; path = codes "/" }
      | some i ↦ record {
        host = take (if leb 128 i then 127 else i) url;
        port = pos 443;
        path = take 127 (drop i url);
      }
    ] in
    with_port (find_index (λ c. c == b':') whole.host) whole

-- The header of ws_send_text, where size_t has 64 bits. With 32 bits, as on the device, the shifts by
-- 32 and more of the last form are undefined.
unfoldable pub frame_header : ℕ → List ℕ
frame_header len =
    if leb len 125
    then 0x81 ∷ len ∷ []
    else if leb len 65535
    then 0x81 ∷ 126 ∷ put_u16_be len
    else 0x81 ∷ 127 ∷ put_u32_be (len / 2 ^ 32) ++ put_u32_be (len % 2 ^ 32)

-- ws_send_text: the bytes written.
unfoldable pub ws_send_text : Text → List ℕ
unfolding frame_header
ws_send_text data_text = frame_header (length data_text) ++ data_text

-- ws_send_close.
ws_send_close : List ℕ
ws_send_close = 0x88 ∷ 0 ∷ []

-- `b ^ m`, where b ^ 0 is b.
unfoldable pub xor_byte : ℕ → ℕ → ℕ
xor_byte b m = if m == 0 then b else bit_xor b m

-- `buf[i] ^= mask[i % 4]`, from i on.
unfoldable pub unmask : List ℕ → ℕ → List ℕ → List ℕ
unfolding xor_byte
unmask mask i [] = []
unmask mask i (b ∷ bs) = xor_byte b (byte_at mask (i % 4)) ∷ unmask mask (suc i) bs

-- A connection: the bytes that are to come, and how many bytes each of the next reads gives at most;
-- 0 is a read that fails. esp_tls_conn_read may give fewer bytes than it is asked for.
pub record Conn : Type 0 where
  pub incoming : List ℕ
  pub gives : ℕ → ℕ

-- The size of a read of `asked` bytes.
unfoldable pub read_size : ℕ → Conn → ℕ
read_size asked conn = if ltb (conn.gives 0) asked then conn.gives 0 else asked

-- esp_tls_conn_read: the bytes it puts into the buffer, and the connection after it.
unfoldable pub conn_read : ℕ → Conn → List ℕ × Conn
unfolding read_size
conn_read asked conn = (
  take (read_size asked conn) conn.incoming,
  record { incoming = drop (read_size asked conn) conn.incoming; gives = λ i. conn.gives (suc i) },
)

-- A buffer after a read into it.
unfoldable pub over : List ℕ → List ℕ → List ℕ
over got old = got ++ drop (length got) old

-- The length of the payload as an int, after the bytes of its extension; eight shifts by a byte leave
-- the low 32 bits.
unfoldable pub long_len : List ℕ → ℤ
long_len ext =
    let low = get_u32_be ext 4 in if ltb low (2 ^ 31) then pos low else negsuc (2 ^ 32 - low - 1)

-- `if (payload_len > (int)buf_len - 1) payload_len = (int)buf_len - 1`.
unfoldable pub capped : ℤ → ℕ → ℤ
capped (pos n) buf_len = if ltb (buf_len - 1) n then pos (buf_len - 1) else pos n
capped (negsuc n) buf_len = negsuc n

-- (size_t) of an int.
unfoldable pub to_size : ℤ → ℕ
to_size (pos n) = n
to_size (negsuc n) = 2 ^ 32 - n - 1

-- What a call of ws_read_text comes to: -1; the use of bytes that no read has set; or, with the size
-- that its last read was called with, the returned length and that many bytes of the buffer (none if
-- it is negative).
pub data FrameRead : Type 0 where
  closed : FrameRead
  unset : FrameRead
  taken_text : (asked : ℕ) (len : ℤ) (text : Text) (after : Conn) → FrameRead

-- The number of rounds of the loop over an int.
unfoldable pub rounds : ℤ → ℕ
rounds (pos n) = n
rounds (negsuc n) = 0

-- The loop over payload_len bytes, after the read of the payload.
unfoldable pub payload_read : List ℕ → ℤ → List ℕ → List ℕ × Conn → FrameRead
unfolding rounds unmask to_size over
payload_read mask len buf (got, after) =
    taken_text (to_size len) len (unmask mask 0 (take (rounds len) (over got buf))) after

-- What follows the cap.
unfoldable pub read_payload : List ℕ → ℤ → List ℕ → Conn → FrameRead
unfolding payload_read to_size conn_read
read_payload mask len buf conn = payload_read mask len buf (conn_read (to_size len) conn)

unfoldable pub mask_read : ℤ → List ℕ → List ℕ × Conn → FrameRead
unfolding read_payload capped over
mask_read len buf (got, after) =
    read_payload (over got (0 ∷ 0 ∷ 0 ∷ 0 ∷ [])) (capped len (length buf)) buf after

-- The read of the mask, into four bytes that are 0.
unfoldable pub with_mask : Bool → ℤ → List ℕ → Conn → FrameRead
unfolding read_payload capped mask_read conn_read
with_mask masked len buf conn =
    if masked
    then mask_read len buf (conn_read 4 conn)
    else read_payload (0 ∷ 0 ∷ 0 ∷ 0 ∷ []) (capped len (length buf)) buf conn

unfoldable pub word_read : Bool → List ℕ → List ℕ × Conn → FrameRead
unfolding with_mask
word_read masked buf (ext, after) =
    if length ext == 2 then with_mask masked (pos (get_u16_be ext 0)) buf after else unset

unfoldable pub long_read : Bool → List ℕ → List ℕ × Conn → FrameRead
unfolding with_mask long_len
long_read masked buf (ext, after) =
    if length ext == 8 then with_mask masked (long_len ext) buf after else unset

-- The read of the bytes after the header that hold the length.
unfoldable pub with_len : ℕ → Bool → List ℕ → Conn → FrameRead
unfolding with_mask word_read long_read conn_read
with_len len7 masked buf conn =
    if len7 == 126
    then word_read masked buf (conn_read 2 conn)
    else if len7 == 127
    then long_read masked buf (conn_read 8 conn)
    else with_mask masked (pos len7) buf conn

unfoldable pub header_read : List ℕ → List ℕ × Conn → FrameRead
unfolding with_len
header_read buf ([], after) = closed
header_read buf (h0 ∷ [], after) = closed
header_read buf (h0 ∷ (h1 ∷ more), after) =
    if h0 % 16 == 8 then closed else with_len (h1 % 128) (leb 128 h1) buf after

-- ws_read_text, with the old bytes of its buffer, of which there is at least one.
unfoldable pub ws_read_text : List ℕ → Conn → FrameRead
unfolding header_read conn_read
ws_read_text buf conn = header_read buf (conn_read 2 conn)
