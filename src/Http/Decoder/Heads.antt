-- ===== src/Http/Decoder/Heads.antt =====
-- The heads of requests, and what the automaton of hs_decoder makes of them.
pub mod Parsed
pub mod Read
use mw_race_service_mesh_c.Base.{
  ℕ, zero, suc, ◌+◌, ◌-◌, ◌*◌, ◌/◌, ◌%◌, ◌^◌, ◌≤◌, ◌<◌, bit_and, bit_or, min, ◌≡◌, ◌≢◌, refl, sym,
  ap, ap₂, ◌∙◌, subst, ◌↔◌, ◌⊎◌, inl, inr, Bool, true, false, not, ◌&&◌, ◌||◌, Option, none, some,
  some-injective, none-ne-some, List, [], ◌∷◌, ◌++◌, append_assoc, append-nil, arith, ltb, leb,
  ◌==◌, if◌then◌else◌, ltb→lt, not_ltb→le, lt→ltb, le→not_ltb, leb→le, not_leb→lt, ==_iff, ==_refl,
  not_==→≢, le→leb, lt→not_leb, not_zero, pos→not_zero, both, not_both, true≢false, Bool-cases,
  Option-cases, length, get_elem?, get_or, set, take, drop, replicate, write_at, All, All-append,
  length-append, length-set, set-set, get_or-set_self, get_or-set_ne, length-take, length-drop,
  length-replicate,
}
use mw_race_service_mesh_c.Base.Int.{ℤ, pos}
use mw_race_service_mesh_c.Base.CString.{atoi, c_string, str_eq}
use mw_race_service_mesh_c.Base.Segments.{drop-append_past}
use mw_race_service_mesh_c.Http.Decoder.Scanned.{lowered, length-lowered, length-snoc}
use mw_race_service_mesh_c.Http.Types.{tolower, lower}
use mw_race_service_mesh_c.Http.Decoder.{get_method, content_length_key}
use mw_race_service_mesh_c.Http.Decoder.Scan.{
  Scan, line, key, value, body, scan, Fits, FitsAll, scans,
}

abbrev pub Header : Type 0
Header = List ℕ × List ℕ

-- "\r\n"
abbrev pub crlf : List ℕ
crlf = 13 ∷ 10 ∷ []

abbrev pub header_bytes : Header → List ℕ
header_bytes (k, v) = k ++ (58 ∷ (v ++ (13 ∷ 10 ∷ [])))

abbrev pub headers_bytes : List Header → List ℕ
headers_bytes [] = crlf
headers_bytes (h ∷ hs) = header_bytes h ++ headers_bytes hs

-- The head of a request: its line, and its headers with an empty line behind them.
abbrev pub head_bytes : List ℕ → List Header → List ℕ
head_bytes request_line hs = request_line ++ (13 ∷ 10 ∷ headers_bytes hs)

-- No end of a line, and no zero.
abbrev pub IsText : ℕ → Type 0
IsText b = ((b == 13) ≡ false) × ((b == 10) ≡ false) × ((b == 0) ≡ false)

abbrev pub IsKeyText : ℕ → Type 0
IsKeyText b = IsText b × ((b == 58) ≡ false)

abbrev pub IsHeader : Header → Type 0
IsHeader (k, v) = All IsKeyText k × All IsText v

abbrev pub lower_case : List ℕ → List ℕ
lower_case [] = []
lower_case (b ∷ bs) = lower b ∷ lower_case bs

-- The number in the last header for the length of the body, or `size`.
abbrev pub content_length : ℤ → List Header → ℤ
content_length size [] = size
content_length size ((k, v) ∷ hs) =
    content_length (if str_eq (lower_case k) content_length_key then atoi v else size) hs

-- A request line that is no GET, on headers that the decoder can tell apart.
pub record IsHead (request_line : List ℕ) (hs : List Header) : Type 0 where
  pub text : All IsText request_line
  pub three : 3 ≤ length request_line
  pub no_get : str_eq get_method (take 3 request_line) ≡ false
  pub headers : All IsHeader hs
