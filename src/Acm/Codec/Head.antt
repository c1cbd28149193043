-- ===== src/Acm/Codec/Head.antt =====
-- The twelve bytes of a message head, as the io threads write and read them.
use mw_race_service_mesh_c.Base.{
  ℕ, ◌+◌, ◌*◌, ◌^◌, ◌<◌, ◌≡◌, refl, ap₂, List, [], ◌∷◌, arith, All, length, bit_and,
}
use mw_race_service_mesh_c.Base.Bits.{bit_and_low}
use mw_race_service_mesh_c.Acm.Codec.{bytes2int, bytes2long}
use mw_race_service_mesh_c.Acm.Codec.RoundTrip.{or_of_four, or_of_eight}
use mw_race_service_mesh_c.Acm.Types.{AcmMsgHead}
use mw_race_service_mesh_c.Acm.Write.{head_bytes}

abbrev pub IsByte : ℕ → Type 0
IsByte b = b < 256

byte_mask : (b : ℕ) → IsByte b → bit_and b 0xff ≡ b
byte_mask b h = rw (bit_and_low 8 b) (omega arith)

abbrev pub parsed : List ℕ → AcmMsgHead
parsed bs = record { req_id = bytes2long bs 0; data_size = bytes2int bs 8 }

module _ (a b c d e f g h i j k l : ℕ) where
  abbrev twelve : List ℕ
  twelve = a ∷ b ∷ c ∷ d ∷ e ∷ f ∷ g ∷ h ∷ i ∷ j ∷ k ∷ l ∷ []

  id_value :
      All IsByte twelve
      → bytes2long twelve 0
        ≡ h
          + g * 2 ^ 8
          + f * 2 ^ 16
          + e * 2 ^ 24
          + d * 2 ^ 32
          + c * 2 ^ 40
          + b * 2 ^ 48
          + a * 2 ^ 56
  unfolding bytes2long
  id_value v =
      rw
        (
          byte_mask a (omega arith),
          byte_mask b (omega arith),
          byte_mask c (omega arith),
          byte_mask d (omega arith),
          byte_mask e (omega arith),
          byte_mask f (omega arith),
          byte_mask g (omega arith),
          byte_mask h (omega arith),
        )
        (or_of_eight h g f e d c b a (omega arith) (omega arith) (omega arith) (omega arith)
          (omega arith) (omega arith) (omega arith) (omega arith))

  size_value : All IsByte twelve → bytes2int twelve 8 ≡ l + k * 2 ^ 8 + j * 2 ^ 16 + i * 2 ^ 24
  unfolding bytes2int
  size_value v =
      rw
        (
          byte_mask i (omega arith),
          byte_mask j (omega arith),
          byte_mask k (omega arith),
          byte_mask l (omega arith),
        )
        (or_of_four l k j i (omega arith) (omega arith) (omega arith) (omega arith))

  twelve_again : All IsByte twelve → head_bytes (parsed twelve) ≡ twelve
  unfolding head_bytes
  twelve_again v =
      rw (id_value v, size_value v)
        (ap₂ ◌∷◌ (omega arith) (
          ap₂ ◌∷◌ (omega arith) (
            ap₂ ◌∷◌ (omega arith) (
              ap₂ ◌∷◌ (omega arith) (
                ap₂ ◌∷◌ (omega arith) (
                  ap₂ ◌∷◌ (omega arith) (
                    ap₂ ◌∷◌ (omega arith) (
                      ap₂ ◌∷◌ (omega arith) (
                        ap₂ ◌∷◌ (omega arith) (
                          ap₂ ◌∷◌ (omega arith)
                            (ap₂ ◌∷◌ (omega arith) (ap₂ ◌∷◌ (omega arith) refl))))))))))))

-- The head that the writer makes of what the reader read is what the reader read.
pub head_bytes-parsed : (bs : List ℕ) → length bs ≡ 12 → All IsByte bs → head_bytes (parsed bs) ≡ bs
head_bytes-parsed (a ∷ b ∷ c ∷ d ∷ e ∷ f ∷ g ∷ h ∷ i ∷ j ∷ k ∷ l ∷ []) len v =
    twelve_again a b c d e f g h i j k l v
head_bytes-parsed _ len v = absurd (omega arith)
