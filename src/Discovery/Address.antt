-- ===== src/Discovery/Address.antt =====
-- sd_parse_ip_and_port: the address that ends a key such as `/dubbomesh/service/ip:port`.
pub mod Parsed
use mw_race_service_mesh_c.Base.{
  ℕ, zero, suc, ◌+◌, ◌-◌, ◌<◌, ◌≡◌, ◌≢◌, refl, Option, none, some, List, [], ◌∷◌, ◌++◌, ◌==◌, Bool,
  not, ◌&&◌, ltb, if◌then◌else◌, arith, length, get_or, set, drop, All,
}
use mw_race_service_mesh_c.Base.Int.{ℤ, pos}
use mw_race_service_mesh_c.Base.CString.{atoi, c_string, is_int, IsDigit, digits_value}

-- What the caller's buffers hold: `none` is what was there before.
pub record Address : Type 0 where
  pub ip : Option (List ℕ)
  pub port : Option ℤ

-- The effect of a colon at index `i` of the array, which it cuts there.
abbrev pub cut_port : List ℕ → ℕ → Address → List ℕ × Address
cut_port src i a = (set src i 0, record a { port = some (atoi (c_string (drop (suc i) src))) })

-- Whether the number behind a colon at index `i` is one that `atoi` is defined on.
abbrev pub has_port : List ℕ → ℕ → Bool
has_port src i = is_int (atoi (c_string (drop (suc i) src)))

-- `strcpy` into the caller's `ip`, an array of 16 bytes.
abbrev pub copy_ip : List ℕ → Address → Option Address
copy_ip s a = if ltb (length s) 16 then some (record a { ip = some s }) else none

-- The rounds from index `i` down. `none` is undefined: a read before the array, a number that is no
-- `int`, or a write past the caller's array.
unfoldable pub scan : ℕ → List ℕ → Address → Option Address
scan zero src a = none
scan (suc i) src a =
    let c = get_or src (suc i) 0 in
    let (src1, a1) = if c == 58 then cut_port src (suc i) a else (src, a) in
    let rest = scan i src1 a1 in
    let below = if i == 0 then some a1 else rest in
    let found = if c == 47 then copy_ip (c_string (drop (suc (suc i)) src1)) a1 else below in
    if c == 58 && not (has_port src (suc i)) then none else found

unfoldable pub parse_ip_and_port : List ℕ → Option Address
unfolding scan
parse_ip_and_port src = scan (length src) (src ++ (0 ∷ [])) (record { ip = none; port = none })
