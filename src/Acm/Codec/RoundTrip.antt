-- ===== src/Acm/Codec/RoundTrip.antt =====
-- acm_int2bytes and acm_long2bytes against acm_bytes2int and acm_bytes2long.
use mw_race_service_mesh_c.Base.{
  ℕ, ◌+◌, ◌*◌, ◌%◌, ◌^◌, ◌≤◌, ◌<◌, ◌≡◌, ◌⊎◌, List, arith, bit_or, length, get_or, length-set,
  get_or-set_self, get_or-set_ne,
}
use mw_race_service_mesh_c.Base.Bits.{bit_or_disjoint, bit_and_low}
use mw_race_service_mesh_c.Acm.Codec.{
  byte_at, char_at, int2bytes, bytes2int, long2bytes, bytes2long,
}

ruleset array_laws = (arith, get_or-set_self, get_or-set_ne, length-set)

-- The big-endian sum that four bytes stand for, lowest first.
pub or_of_four :
    (a b c d : ℕ)
    → a < 256
    → b < 256
    → c < 256
    → d < 256
    → bit_or (bit_or (bit_or a (b * 2 ^ 8 % 2 ^ 32)) (c * 2 ^ 16 % 2 ^ 32)) (d * 2 ^ 24 % 2 ^ 32)
      ≡ a + b * 2 ^ 8 + c * 2 ^ 16 + d * 2 ^ 24
or_of_four a b c d ha hb hc hd = ground (
  arith,
  bit_or_disjoint 8 a b,
  bit_or_disjoint 16 (a + b * 2 ^ 8) c,
  bit_or_disjoint 24 (a + b * 2 ^ 8 + c * 2 ^ 16) d,
)

or_shifted :
    (k v b : ℕ) → v < 2 ^ k → b * 2 ^ k < 2 ^ 64 → bit_or v (b * 2 ^ k % 2 ^ 64) ≡ v + b * 2 ^ k
or_shifted k v b h fits = ground (arith, bit_or_disjoint k v b)

char_at-of : (buf : List ℕ) (i b : ℕ) → get_or buf i 0 ≡ b → b < 256 → char_at buf i ≡ b
char_at-of buf i b e h = rw (e, bit_and_low 8 b) (omega arith)

-- What the readers make of a buffer whose bytes are known.
bytes2int-of :
    (buf : List ℕ) (o d c b a : ℕ)
    → (get_or buf (o + 0) 0 ≡ d)
      × (get_or buf (o + 1) 0 ≡ c)
      × (get_or buf (o + 2) 0 ≡ b)
      × (get_or buf (o + 3) 0 ≡ a)
    → a < 256
    → b < 256
    → c < 256
    → d < 256
    → bytes2int buf o ≡ a + b * 2 ^ 8 + c * 2 ^ 16 + d * 2 ^ 24
unfolding bytes2int
bytes2int-of buf o d c b a (ed, ec, eb, ea) ha hb hc hd =
    rw
      (
        char_at-of buf (o + 3) a ea ha,
        char_at-of buf (o + 2) b eb hb,
        char_at-of buf (o + 1) c ec hc,
        char_at-of buf (o + 0) d ed hd,
      )
      (or_of_four a b c d ha hb hc hd)

pub or_of_eight :
    (a b c d e f g h : ℕ)
    → a < 256
    → b < 256
    → c < 256
    → d < 256
    → e < 256
    → f < 256
    → g < 256
    → h < 256
    → bit_or
        (bit_or
          (bit_or
            (bit_or
              (bit_or
                (bit_or (bit_or a (b * 2 ^ 8 % 2 ^ 64)) (c * 2 ^ 16 % 2 ^ 64))
                (d * 2 ^ 24 % 2 ^ 64))
              (e * 2 ^ 32 % 2 ^ 64))
            (f * 2 ^ 40 % 2 ^ 64))
          (g * 2 ^ 48 % 2 ^ 64))
        (h * 2 ^ 56 % 2 ^ 64)
      ≡ a + b * 2 ^ 8 + c * 2 ^ 16 + d * 2 ^ 24 + e * 2 ^ 32 + f * 2 ^ 40 + g * 2 ^ 48 + h * 2 ^ 56
or_of_eight a b c d e f g h ha hb hc hd he hf hg hh =
    let s2 = a + b * 2 ^ 8 in
    let s3 = s2 + c * 2 ^ 16 in
    let s4 = s3 + d * 2 ^ 24 in
    let s5 = s4 + e * 2 ^ 32 in
    let s6 = s5 + f * 2 ^ 40 in
    let s7 = s6 + g * 2 ^ 48 in
    rw (
      or_shifted 8 a b (omega arith) (omega arith),
      or_shifted 16 s2 c (omega arith) (omega arith),
      or_shifted 24 s3 d (omega arith) (omega arith),
      or_shifted 32 s4 e (omega arith) (omega arith),
      or_shifted 40 s5 f (omega arith) (omega arith),
      or_shifted 48 s6 g (omega arith) (omega arith),
      or_shifted 56 s7 h (omega arith) (omega arith),
    )

module _ (v : ℕ) (buf : List ℕ) (o : ℕ) where
  int2bytes_holds :
      o + 4 ≤ length buf
      → (get_or (int2bytes v buf o) (o + 0) 0 ≡ byte_at v 24)
        × (get_or (int2bytes v buf o) (o + 1) 0 ≡ byte_at v 16)
        × (get_or (int2bytes v buf o) (o + 2) 0 ≡ byte_at v 8)
        × (get_or (int2bytes v buf o) (o + 3) 0 ≡ byte_at v 0)
  unfolding int2bytes
  int2bytes_holds fits = (grind array_laws, grind array_laws, grind array_laws, grind array_laws)

  long2bytes_high :
      o + 8 ≤ length buf
      → (get_or (long2bytes v buf o) (o + 0) 0 ≡ byte_at v 56)
        × (get_or (long2bytes v buf o) (o + 1) 0 ≡ byte_at v 48)
        × (get_or (long2bytes v buf o) (o + 2) 0 ≡ byte_at v 40)
        × (get_or (long2bytes v buf o) (o + 3) 0 ≡ byte_at v 32)
  unfolding long2bytes
  long2bytes_high fits = (grind array_laws, grind array_laws, grind array_laws, grind array_laws)

  long2bytes_low :
      o + 8 ≤ length buf
      → (get_or (long2bytes v buf o) (o + 4) 0 ≡ byte_at v 24)
        × (get_or (long2bytes v buf o) (o + 5) 0 ≡ byte_at v 16)
        × (get_or (long2bytes v buf o) (o + 6) 0 ≡ byte_at v 8)
        × (get_or (long2bytes v buf o) (o + 7) 0 ≡ byte_at v 0)
  unfolding long2bytes
  long2bytes_low fits = (grind array_laws, grind array_laws, grind array_laws, grind array_laws)

  int2bytes_elsewhere :
      (j : ℕ) → (j < o) ⊎ (o + 4 ≤ j) → get_or (int2bytes v buf o) j 0 ≡ get_or buf j 0
  unfolding int2bytes
  int2bytes_elsewhere j out = grind array_laws

  long2bytes_elsewhere :
      (j : ℕ) → (j < o) ⊎ (o + 8 ≤ j) → get_or (long2bytes v buf o) j 0 ≡ get_or buf j 0
  unfolding long2bytes
  long2bytes_elsewhere j out = grind array_laws

  -- acm_bytes2int reads back the 32-bit value that acm_int2bytes wrote at the same offset of a
  -- buffer with room for it, and any byte outside the four written ones is unchanged.
  pub bytes2int-int2bytes :
      v < 2 ^ 32
      → o + 4 ≤ length buf
      → (j : ℕ) → (j < o) ⊎ (o + 4 ≤ j)
      → (bytes2int (int2bytes v buf o) o ≡ v) × (get_or (int2bytes v buf o) j 0 ≡ get_or buf j 0)
  bytes2int-int2bytes small fits j out = (
    omega (
      arith,
      bytes2int-of (int2bytes v buf o) o _ _ _ _ (int2bytes_holds fits) (omega arith) (omega arith)
          (omega arith) (omega arith),
    ),
    int2bytes_elsewhere j out,
  )

  -- acm_bytes2long reads back the 64-bit value that acm_long2bytes wrote at the same offset of a
  -- buffer with room for it, and any byte outside the eight written ones is unchanged.
  pub bytes2long-long2bytes :
      v < 2 ^ 64
      → o + 8 ≤ length buf
      → (j : ℕ) → (j < o) ⊎ (o + 8 ≤ j)
      → (bytes2long (long2bytes v buf o) o ≡ v) × (get_or (long2bytes v buf o) j 0 ≡ get_or buf j 0)
  unfolding bytes2long
  bytes2long-long2bytes small fits j out = (read_back, long2bytes_elsewhere j out)
    where
      written : List ℕ
      written = long2bytes v buf o

      read_back : bytes2long written o ≡ v
      read_back =
          let (e0, e1, e2, e3) = long2bytes_high fits in
          let (e4, e5, e6, e7) = long2bytes_low fits in
          rw
            (
              char_at-of written (o + 7) _ e7 (omega arith),
              char_at-of written (o + 6) _ e6 (omega arith),
              char_at-of written (o + 5) _ e5 (omega arith),
              char_at-of written (o + 4) _ e4 (omega arith),
              char_at-of written (o + 3) _ e3 (omega arith),
              char_at-of written (o + 2) _ e2 (omega arith),
              char_at-of written (o + 1) _ e1 (omega arith),
              char_at-of written (o + 0) _ e0 (omega arith),
              or_of_eight (byte_at v 0) (byte_at v 8) (byte_at v 16) (byte_at v 24) (byte_at v 32)
                  (byte_at v 40) (byte_at v 48) (byte_at v 56) (omega arith) (omega arith)
                  (omega arith) (omega arith) (omega arith) (omega arith) (omega arith)
                  (omega arith),
            )
            (omega arith)
