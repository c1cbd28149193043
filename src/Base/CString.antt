-- ===== src/Base/CString.antt =====
-- C strings as the lists of their bytes before the final zero, and the functions of string.h and
-- stdlib.h that the program calls on them.
use Prim.Native.Nat.{ℕ, zero, suc, ◌+◌, ◌-◌, ◌*◌, ◌/◌, ◌%◌, ◌≤◌}
use mathlib.Core.Path.{◌≡◌, refl, sym, ap, ap₂}
use mathlib.Core.Logic.{inl, inr}
use mathlib.Core.Bool.{Bool, true, false, true≢false, ◌&&◌, ◌||◌}
use mathlib.Core.List.{List, [], ◌∷◌, ◌++◌}
use native.Mathlib.Omega.{arith}
use mw_race_service_mesh_c.Base.Tests.{◌==◌, ltb, leb, ==_iff, ==_refl, if◌then◌else◌, Bool-cases}
use mw_race_service_mesh_c.Base.Lists.{All, length}
use mw_race_service_mesh_c.Base.Int.{ℤ, pos, negsuc, ◌-ℤ◌}

-- The string that starts an array of bytes.
abbrev pub c_string : List ℕ → List ℕ
c_string [] = []
c_string (c ∷ cs) = if c == 0 then [] else c ∷ c_string cs

-- `strcmp(s, t) == 0`
abbrev pub str_eq : List ℕ → List ℕ → Bool
str_eq [] [] = true
str_eq [] (_ ∷ _) = false
str_eq (_ ∷ _) [] = false
str_eq (a ∷ s) (b ∷ t) = (a == b) && str_eq s t

abbrev pub is_digit : ℕ → Bool
is_digit c = leb 48 c && leb c 57

abbrev pub is_space : ℕ → Bool
is_space c = (c == 32) || (leb 9 c && leb c 13)

-- The value of the digits that start a string, after those that gave `acc`.
unfoldable pub digits_value : ℕ → List ℕ → ℕ
digits_value acc [] = acc
digits_value acc (c ∷ cs) =
    let rest = digits_value (10 * acc + (c - 48)) cs in if is_digit c then rest else acc

unfoldable pub signed_value : List ℕ → ℤ
unfolding digits_value
signed_value [] = pos 0
signed_value (c ∷ cs) =
    if c == 45
    then pos 0 -ℤ pos (digits_value 0 cs)
    else (if c == 43 then pos (digits_value 0 cs) else pos (digits_value 0 (c ∷ cs)))

-- `atoi`, for values that an `int` holds (`is_int`); it is not defined on others.
unfoldable pub atoi : List ℕ → ℤ
unfolding signed_value
atoi [] = pos 0
atoi (c ∷ cs) = let rest = atoi cs in if is_space c then rest else signed_value (c ∷ cs)

-- The values of a 32-bit `int`.
abbrev pub is_int : ℤ → Bool
is_int (pos n) = ltb n 2147483648
is_int (negsuc n) = ltb n 2147483648

abbrev pub IsDigit : ℕ → Type 0
IsDigit c = is_digit c ≡ true

pub str_eq_refl : (s : List ℕ) → str_eq s s ≡ true
str_eq_refl [] = refl
str_eq_refl (c ∷ s) = rw (str_eq_refl s) rw (==_refl c) refl

pub str_eq→≡ : (s t : List ℕ) → str_eq s t ≡ true → s ≡ t
str_eq→≡ [] [] h = refl
str_eq→≡ [] (_ ∷ _) h = absurd (true≢false (sym h))
str_eq→≡ (_ ∷ _) [] h = absurd (true≢false (sym h))
str_eq→≡ (a ∷ s) (b ∷ t) h = elim (Bool-cases (a == b)) [
  | inl e ↦ ap₂ ◌∷◌ ((==_iff a b).0 e) (str_eq→≡ s t (rw e at h))
  | inr e ↦ absurd (true≢false (sym (rw e at h)))
]

digit-no_space : (c : ℕ) → IsDigit c → is_space c ≡ false
digit-no_space c h = ground arith

digit-no_sign : (c : ℕ) → IsDigit c → ((c == 45) ≡ false) × ((c == 43) ≡ false)
digit-no_sign c h = (ground arith, ground arith)

-- A number that starts with a digit has no blanks and no sign.
pub atoi-digits : (c : ℕ) (cs : List ℕ) → IsDigit c → atoi (c ∷ cs) ≡ pos (digits_value 0 (c ∷ cs))
unfolding atoi signed_value
atoi-digits c cs h =
    rw (digit-no_space c h) (rw (digit-no_sign c h).0 (rw (digit-no_sign c h).1 refl))

-- A string without a zero is read up to the zero behind it.
pub c_string-append : (s r : List ℕ) → All (λ c. (c == 0) ≡ false) s → c_string (s ++ (0 ∷ r)) ≡ s
c_string-append [] r h = refl
c_string-append (c ∷ s) r (nz, h) = rw nz (ap (◌∷◌ c) (c_string-append s r h))

-- `%d` of a number, with as many digits as the fuel at most; ten are enough for an `int`.
unfoldable pub decimal_from : ℕ → ℕ → List ℕ → List ℕ
decimal_from zero n acc = acc
decimal_from (suc k) n acc =
    let digits = (48 + n % 10) ∷ acc in
    let more = decimal_from k (n / 10) digits in if n / 10 == 0 then digits else more

unfoldable pub decimal : ℕ → List ℕ
unfolding decimal_from
decimal n = decimal_from 10 n []

length-decimal_from : (k n : ℕ) (acc : List ℕ) → length (decimal_from k n acc) ≤ k + length acc
unfolding decimal_from
length-decimal_from zero n acc = omega arith
length-decimal_from (suc k) n acc = elim (Bool-cases (n / 10 == 0)) [
  | inl last ↦ rw last (omega arith)
  | inr more ↦ rw more (omega (arith, length-decimal_from k (n / 10) ((48 + n % 10) ∷ acc)))
]

pub length-decimal : (n : ℕ) → length (decimal n) ≤ 10
unfolding decimal
length-decimal n = omega (arith, length-decimal_from 10 n [])
