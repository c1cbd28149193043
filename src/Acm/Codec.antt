-- ===== src/Acm/Codec.antt =====
-- The byte order of a message head: acm_int2bytes, acm_bytes2int, acm_long2bytes, acm_bytes2long.
-- A `char` of a buffer is its bit pattern, a number below 256.
pub mod RoundTrip
pub mod Head
use mw_race_service_mesh_c.Base.{ℕ, ◌+◌, ◌*◌, ◌/◌, ◌%◌, ◌^◌, List, bit_and, bit_or, get_or, set}

-- `(unsigned char)(value >> s)`
abbrev pub byte_at : ℕ → ℕ → ℕ
byte_at value s = value / 2 ^ s % 256

-- `((unsigned int)buf[i] & 0xFF)`: the mask undoes the sign extension.
abbrev pub char_at : List ℕ → ℕ → ℕ
char_at buf i = bit_and (get_or buf i 0) 0xff

unfoldable pub int2bytes : ℕ → List ℕ → ℕ → List ℕ
int2bytes value buf offset =
    let buf1 = set buf (offset + 3) (byte_at value 0) in
    let buf2 = set buf1 (offset + 2) (byte_at value 8) in
    let buf3 = set buf2 (offset + 1) (byte_at value 16) in set buf3 (offset + 0) (byte_at value 24)

unfoldable pub bytes2int : List ℕ → ℕ → ℕ
bytes2int buf offset =
    bit_or
      (bit_or (bit_or (char_at buf (offset + 3)) (char_at buf (offset + 2) * 2 ^ 8 % 2 ^ 32))
        (char_at buf (offset + 1) * 2 ^ 16 % 2 ^ 32))
      (char_at buf (offset + 0) * 2 ^ 24 % 2 ^ 32)

unfoldable pub long2bytes : ℕ → List ℕ → ℕ → List ℕ
long2bytes value buf offset =
    let buf1 = set buf (offset + 7) (byte_at value 0) in
    let buf2 = set buf1 (offset + 6) (byte_at value 8) in
    let buf3 = set buf2 (offset + 5) (byte_at value 16) in
    let buf4 = set buf3 (offset + 4) (byte_at value 24) in
    let buf5 = set buf4 (offset + 3) (byte_at value 32) in
    let buf6 = set buf5 (offset + 2) (byte_at value 40) in
    let buf7 = set buf6 (offset + 1) (byte_at value 48) in set buf7 (offset + 0) (byte_at value 56)

-- One shifted byte of `acm_bytes2long`.
abbrev shifted : List ℕ → ℕ → ℕ → ℕ
shifted buf i s = char_at buf i * 2 ^ s % 2 ^ 64

unfoldable pub bytes2long : List ℕ → ℕ → ℕ
bytes2long buf offset =
    let v1 = bit_or (char_at buf (offset + 7)) (shifted buf (offset + 6) 8) in
    let v2 = bit_or v1 (shifted buf (offset + 5) 16) in
    let v3 = bit_or v2 (shifted buf (offset + 4) 24) in
    let v4 = bit_or v3 (shifted buf (offset + 3) 32) in
    let v5 = bit_or v4 (shifted buf (offset + 2) 40) in
    let v6 = bit_or v5 (shifted buf (offset + 1) 48) in bit_or v6 (shifted buf (offset + 0) 56)
