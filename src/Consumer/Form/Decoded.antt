-- ===== src/Consumer/Form/Decoded.antt =====
-- The service name that get_service_name finds in a form.
use mw_race_service_mesh_c.Base.{
  ℕ, ◌+◌, ◌*◌, ◌%◌, ◌≤◌, ◌<◌, ◌≡◌, refl, ap, ap₂, ◌∙◌, inl, inr, true, false, ◌||◌, some, List, [],
  ◌∷◌, ◌++◌, arith, ltb, ◌==◌, if◌then◌else◌, ltb→lt, not_ltb→le, le→leb, lt→not_leb, Bool-cases,
  All,
}
use mw_race_service_mesh_c.Base.Int.{pos, ◌+ℤ◌}
use native.Mathlib.Nat.{mod-eq_of_lt}
use mw_race_service_mesh_c.Consumer.Form.{
  times16, hex2dec, escaped, char_of, put, service_name_from, get_service_name,
}

-- A byte that stands for itself in the value of a parameter.
abbrev pub IsPlain : ℕ → Type 0
IsPlain c = ((c == 0) || (c == 38) ≡ false) × ((c == 61) ≡ false) × ((c == 37) ≡ false)

-- A byte of a parameter's name.
abbrev pub IsNameByte : ℕ → Type 0
IsNameByte c = ((c == 0) || (c == 38) ≡ false) × ((c == 61) ≡ false)

-- The digits of hexadecimal, in upper case.
abbrev pub hex_digit : ℕ → ℕ
hex_digit n = if ltb n 10 then 48 + n else 55 + n

-- A value and an encoding of it: each byte is plain, or a percent sign and two digits.
pub data Encoding : List ℕ → List ℕ → Type 0 where
  ends : Encoding [] []
  plain : (c : ℕ) {v e : List ℕ} → IsPlain c → Encoding v e → Encoding (c ∷ v) (c ∷ e)
  percent :
      (hi lo : ℕ) {v e : List ℕ}
      → hi < 16
      → lo < 16
      → Encoding v e
      → Encoding ((16 * hi + lo) ∷ v) (37 ∷ (hex_digit hi ∷ (hex_digit lo ∷ e)))

hex2dec-decimal : (n : ℕ) → n < 10 → hex2dec (48 + n) ≡ pos n
unfolding hex2dec
hex2dec-decimal n h =
    rw (le→leb 48 (48 + n) (omega arith))
      (rw (le→leb (48 + n) 57 (omega arith)) (ap pos (omega arith)))

hex2dec-letter : (n : ℕ) → 10 ≤ n → n < 16 → hex2dec (55 + n) ≡ pos n
unfolding hex2dec
hex2dec-letter n lo hi = rw (le→leb 48 (55 + n) (omega arith)) (
    rw (lt→not_leb (55 + n) 57 (omega arith)) (
      rw (lt→not_leb 97 (55 + n) (omega arith)) (
        rw (le→leb 65 (55 + n) (omega arith))
          (rw (le→leb (55 + n) 70 (omega arith)) (ap pos (omega arith))))))

hex2dec-hex_digit : (n : ℕ) → n < 16 → hex2dec (hex_digit n) ≡ pos n
hex2dec-hex_digit n h = elim (Bool-cases (ltb n 10)) [
  | inl lt ↦ rw lt (hex2dec-decimal n (ltb→lt _ _ lt))
  | inr ge ↦ rw ge (hex2dec-letter n (not_ltb→le _ _ ge) h)
]

escaped-hex_digit :
    (hi lo : ℕ) → hi < 16 → lo < 16 → escaped (hex_digit hi) (hex_digit lo) ≡ 16 * hi + lo
escaped-hex_digit hi lo h l =
    ap₂ (λ a b. char_of (times16 a +ℤ b)) (hex2dec-hex_digit hi h) (hex2dec-hex_digit lo l)
    ∙ rw (le→leb 0 (hi * 16 + lo) (omega arith))
        (ap (λ x. x % 256) {y = 16 * hi + lo} (omega arith) ∙ mod-eq_of_lt (omega arith))

-- What ends a value: the end of the form, or the next parameter.
pub data Ending : List ℕ → Type 0 where
  at_end : Ending []
  at_zero : (rest : List ℕ) → Ending (0 ∷ rest)
  at_next : (rest : List ℕ) → Ending (38 ∷ rest)

service_name_from-Ending : (rest : List ℕ) → Ending rest → service_name_from true rest ≡ some []
unfolding service_name_from
service_name_from-Ending [] at_end = refl
service_name_from-Ending _ (at_zero rest) = refl
service_name_from-Ending _ (at_next rest) = refl

service_name_from-value :
    {v e : List ℕ} (rest : List ℕ)
    → Encoding v e
    → Ending rest
    → service_name_from true (e ++ rest) ≡ some v
unfolding service_name_from
service_name_from-value rest ends ending = service_name_from-Ending rest ending
service_name_from-value rest (plain c (live, no_eq, no_pct) enc) ending =
    rw live (rw no_eq (rw no_pct (ap (put c) (service_name_from-value rest enc ending))))
service_name_from-value rest (percent hi lo h l enc) ending =
    ap₂ put (escaped-hex_digit hi lo h l) (service_name_from-value rest enc ending)

service_name_from-name :
    (name : List ℕ) (cs : List ℕ)
    → All IsNameByte name
    → service_name_from false (name ++ (61 ∷ cs)) ≡ service_name_from true cs
unfolding service_name_from
service_name_from-name [] cs all = refl
service_name_from-name (c ∷ name) cs ((live, no_eq), all) =
    rw live (rw no_eq (service_name_from-name name cs all))

-- A form whose first parameter has an encoded value gives that value, whatever its name is and
-- whatever parameters follow.
pub get_service_name-decodes :
    (name value encoded rest : List ℕ)
    → All IsNameByte name
    → Encoding value encoded
    → Ending rest
    → get_service_name (name ++ (61 ∷ (encoded ++ rest))) ≡ some value
unfolding get_service_name
get_service_name-decodes name value encoded rest all enc ending =
    service_name_from-name name (encoded ++ rest) all ∙ service_name_from-value rest enc ending
