-- ===== src/Ehash/Bytes.antt =====
-- components/ehash_relay: big-endian numbers, and reads behind the checked region.
use tollgate_esp.Prelude.{
  ℕ, zero, suc, ◌+◌, ◌*◌, ◌/◌, ◌%◌, ◌<◌, ◌≡◌, refl, ap, Bool, true, false, List, [], ◌∷◌, ◌++◌,
  ◌==◌, bit_xor, if◌then◌else◌, take, length, arith,
}
use tollgate_esp.Ehash.Packet.{byte_at, crc_bits, crc_bytes, calc_crc}

pub take-prefix : (xs ys : List ℕ) (n : ℕ) → length xs ≡ n → take n (xs ++ ys) ≡ xs
take-prefix [] ys zero h = refl
take-prefix [] ys (suc n) h = absurd (ground arith)
take-prefix (x ∷ xs) ys zero h = absurd (ground arith)
take-prefix (x ∷ xs) ys (suc n) h = ap (λ zs. x ∷ zs) (take-prefix xs ys n (ground arith))

pub take-whole : (xs : List ℕ) (n : ℕ) → length xs ≡ n → take n xs ≡ xs
take-whole [] zero h = refl
take-whole [] (suc n) h = absurd (ground arith)
take-whole (x ∷ xs) zero h = absurd (ground arith)
take-whole (x ∷ xs) (suc n) h = ap (λ zs. x ∷ zs) (take-whole xs n (ground arith))

pub byte_at-append :
    (xs ys : List ℕ) (i j : ℕ) → j ≡ length xs + i → byte_at (xs ++ ys) j ≡ byte_at ys i
unfolding byte_at
byte_at-append [] ys i j h = ap (byte_at ys) (omega arith)
byte_at-append (x ∷ xs) ys i zero h = absurd (omega arith)
byte_at-append (x ∷ xs) ys i (suc j) h = byte_at-append xs ys i j (omega arith)

choice-lt : (b : Bool) (x y n : ℕ) → x < n → y < n → (if b then x else y) < n
choice-lt true x y n h k = h
choice-lt false x y n h k = k

-- The checksum is a uint16_t.
crc_bits-lt : (n crc : ℕ) → crc < 65536 → crc_bits n crc < 65536
unfolding crc_bits
crc_bits-lt zero crc h = h
crc_bits-lt (suc n) crc h =
    crc_bits-lt n
      (if crc / 32768 % 2 == 1 then bit_xor (crc * 2) 0x1021 % 65536 else crc * 2 % 65536)
      (choice-lt (crc / 32768 % 2 == 1) (bit_xor (crc * 2) 0x1021 % 65536) (crc * 2 % 65536) 65536
        (omega arith) (omega arith))

crc_bytes-lt : (bs : List ℕ) (crc : ℕ) → crc < 65536 → crc_bytes crc bs < 65536
unfolding crc_bytes
crc_bytes-lt [] crc h = h
crc_bytes-lt (b ∷ bs) crc h =
    crc_bytes-lt bs _ (crc_bits-lt 8 (bit_xor crc (b * 256) % 65536) (omega arith))

pub calc_crc-lt : (buf : List ℕ) (len : ℕ) → calc_crc buf len < 65536
unfolding calc_crc
calc_crc-lt buf len = crc_bytes-lt (take len buf) 0xFFFF (omega arith)

pub u16_round_trip : (v : ℕ) → v < 65536 → v / 256 % 256 * 256 + v % 256 ≡ v
u16_round_trip v h = omega arith

pub u32_round_trip :
    (v : ℕ)
    → v < 4294967296
    → v / 16777216 % 256 * 16777216 + v / 65536 % 256 * 65536 + v / 256 % 256 * 256 + v % 256 ≡ v
u32_round_trip v h = omega arith
