-- ===== src/Consumer/Form.antt =====
-- get_service_name, get_parameter_start_index and hash_code, on the form of a request.
pub mod Decoded
use mw_race_service_mesh_c.Base.{
  ℕ, zero, suc, ◌+◌, ◌-◌, ◌*◌, ◌/◌, ◌%◌, ◌^◌, ◌≤◌, ◌<◌, bit_and, bit_or, min, ◌≡◌, ◌≢◌, refl, sym,
  ap, ap₂, ◌∙◌, subst, ◌↔◌, ◌⊎◌, inl, inr, Bool, true, false, not, ◌&&◌, ◌||◌, Option, none, some,
  some-injective, none-ne-some, List, [], ◌∷◌, ◌++◌, append_assoc, append-nil, arith, ltb, leb,
  ◌==◌, if◌then◌else◌, ltb→lt, not_ltb→le, lt→ltb, le→not_ltb, leb→le, not_leb→lt, ==_iff, ==_refl,
  not_==→≢, not_zero, pos→not_zero, both, not_both, true≢false, Bool-cases, Option-cases, length,
  get_elem?, get_or, set, take, drop, replicate, write_at, All, All-append, length-append,
  length-set, set-set, get_or-set_self, get_or-set_ne, length-take, length-drop, length-replicate,
}
use mw_race_service_mesh_c.Base.Int.{ℤ, pos, negsuc, ◌+ℤ◌, pos_part, neg_part}

unfoldable pub hex2dec : ℕ → ℤ
hex2dec c =
    if leb 48 c && leb c 57
    then pos (c - 48)
    else (if leb 97 c && leb c 102
        then pos (c - 97 + 10)
        else (if leb 65 c && leb c 70 then pos (c - 65 + 10) else negsuc 0))

-- `num` as a `char`.
abbrev pub char_of : ℤ → ℕ
char_of (pos n) = n % 256
char_of (negsuc n) = 255 - n % 256

abbrev pub times16 : ℤ → ℤ
times16 (pos n) = pos (n * 16)
times16 (negsuc n) = negsuc (n * 16 + 15)

abbrev pub escaped : ℕ → ℕ → ℕ
escaped c1 c0 = char_of (times16 (hex2dec c1) +ℤ hex2dec c0)

abbrev pub put : ℕ → Option (List ℕ) → Option (List ℕ)
put c none = none
put c (some name) = some (c ∷ name)

-- The loop, with `is_param_start`. `none` is a read past the end of the form, after an escape
-- that it ends in.
unfoldable mutual
  unfolding hex2dec

  pub service_name_from : Bool → List ℕ → Option (List ℕ)
  service_name_from started [] = some []
  service_name_from started (c ∷ cs) =
      let skipped = service_name_from false cs in
      let behind = service_name_from true cs in
      let unescaped = escape cs in
      let kept = if c == 37 then unescaped else put c behind in
      if (c == 0) || (c == 38)
      then some []
      else (if c == 61 then behind else (if started then kept else skipped))

  pub escape : List ℕ → Option (List ℕ)
  escape [] = none
  escape (_ ∷ []) = none
  escape (c1 ∷ (c0 ∷ cs)) = put (escaped c1 c0) (service_name_from true cs)

unfoldable pub get_service_name : List ℕ → Option (List ℕ)
unfolding service_name_from
get_service_name src = service_name_from false src

unfoldable pub parameter_start_from : ℕ → ℕ → List ℕ → ℕ
parameter_start_from i param_start [] = param_start
parameter_start_from i param_start (c ∷ cs) =
    let rest = parameter_start_from (suc i) (if c == 61 then suc i else param_start) cs in
    if c == 0 then param_start else rest

unfoldable pub get_parameter_start_index : List ℕ → ℕ
unfolding parameter_start_from
get_parameter_start_index str = parameter_start_from 0 0 str

-- A `char` is signed, and the `int` wraps around: the bits of `h`.
abbrev signed_char : ℕ → ℕ
signed_char c = if ltb c 128 then c else c + 2 ^ 32 - 256

abbrev hash_from : ℕ → List ℕ → ℕ
hash_from h [] = h
hash_from h (c ∷ cs) = hash_from ((31 * h + signed_char c) % 2 ^ 32) cs

unfoldable pub hash_code : List ℕ → ℕ
hash_code str = hash_from 0 str
