-- ===== src/Http/Decoder.antt =====
-- hs_decoder: the bytes of a request, as far as they were read. One round is one byte.
-- A call of the content handler is a value in the result; what the handler does to the channel is not a
-- part of it.
pub mod Ends
pub mod Body
pub mod Scan
pub mod Scanned
pub mod Runs
pub mod Heads
use mw_race_service_mesh_c.Base.{
  ℕ, zero, suc, ◌+◌, ◌-◌, ◌*◌, ◌/◌, ◌%◌, ◌^◌, ◌≤◌, ◌<◌, bit_and, bit_or, min, ◌≡◌, ◌≢◌, refl, sym,
  ap, ap₂, ◌∙◌, subst, ◌↔◌, ◌⊎◌, inl, inr, Bool, true, false, not, ◌&&◌, ◌||◌, Option, none, some,
  some-injective, none-ne-some, List, [], ◌∷◌, ◌++◌, append_assoc, append-nil, arith, ltb, leb,
  ◌==◌, if◌then◌else◌, ltb→lt, not_ltb→le, lt→ltb, le→not_ltb, leb→le, not_leb→lt, ==_iff, ==_refl,
  not_==→≢, le→leb, lt→not_leb, not_zero, pos→not_zero, both, not_both, true≢false, Bool-cases,
  Option-cases, length, get_elem?, get_or, set, take, drop, replicate, write_at, All, All-append,
  length-append, length-set, set-set, get_or-set_self, get_or-set_ne, length-take, length-drop,
  length-replicate,
}
use mw_race_service_mesh_c.Base.Int.{ℤ, pos, negsuc, eqb_ℤ, sub_ℕ}
use mw_race_service_mesh_c.Base.CString.{atoi, c_string, str_eq}
use mw_race_service_mesh_c.Http.Types.{
  HsChannel, Handled, set_byte, tolower, content_handler_thread,
}

-- "GET" and "content-length"
abbrev pub get_method : List ℕ
get_method = 71 ∷ 69 ∷ 84 ∷ []

abbrev pub content_length_key : List ℕ
content_length_key =
    99 ∷ 111 ∷ 110 ∷ 116 ∷ 101 ∷ 110 ∷ 116 ∷ 45 ∷ 108 ∷ 101 ∷ 110 ∷ 103 ∷ 116 ∷ 104 ∷ []

abbrev pub string_at : HsChannel → ℕ → List ℕ
string_at c i = c_string (drop i c.buffer)

-- A byte of the request line. At its end a GET request is handled at once.
unfoldable pub decode_line : HsChannel → ℕ → HsChannel × List Handled
unfolding content_handler_thread
decode_line c b =
    let i = c.decode_index in
    let cut = set_byte (set_byte c i 0) 3 0 in
    let handled = content_handler_thread cut in
    if b == 13
    then (if str_eq get_method (string_at cut 0) then handled else (cut, []))
    else (if b == 10 then (record c { is_line = false; key_start = i + 1 }, []) else (c, []))

-- A byte of a header's key.
unfoldable pub decode_key : HsChannel → ℕ → HsChannel
unfolding tolower
decode_key c b =
    let i = c.decode_index in
    let cut = set_byte c i 0 in
    let lowered = record cut {
      is_key = false;
      value_start = i + 1;
      buffer = take c.key_start cut.buffer ++ tolower (drop c.key_start cut.buffer);
    } in
    if b == 58
    then (if str_eq (string_at lowered c.key_start) content_length_key
        then record lowered { is_content_length = true }
        else lowered)
    else (if b == 10 then record c { is_head = false; body_start = i + 1 } else c)

-- A byte of a header's value.
unfoldable pub decode_value : HsChannel → ℕ → HsChannel
unfolding atoi
decode_value c b =
    let i = c.decode_index in
    let cut = set_byte c i 0 in
    if b == 13
    then (if c.is_content_length
        then record cut {
          is_content_length = false;
          body_size = atoi (string_at cut c.value_start);
        }
        else c)
    else (if b == 10 then record c { is_key = true; key_start = i + 1 } else c)

-- The body: the loop goes to its end, and looks at whether all of the body is there.
unfoldable pub decode_body : HsChannel → HsChannel
decode_body c =
    let c1 = record c { decode_index = c.processing_end - 1 } in
    if eqb_ℤ (sub_ℕ c.processing_end c.body_start) c.body_size
    then record c1 { is_body = false; is_read_done = true }
    else c1

unfoldable pub decode_byte : HsChannel → HsChannel × List Handled
unfolding decode_line decode_key decode_value decode_body
decode_byte c =
    let b = get_or c.buffer c.decode_index 0 in
    if c.is_line
    then decode_line c b
    else (if c.is_head
        then ((if c.is_key then decode_key c b else decode_value c b), [])
        else (if c.is_body then (decode_body c, []) else (c, [])))

-- `n` rounds, or fewer when the bytes end.
unfoldable pub decode_loop : ℕ → HsChannel → HsChannel × List Handled
unfolding decode_byte
decode_loop zero c = (c, [])
decode_loop (suc n) c =
    let (c1, handled) = decode_byte c in
    let (c2, later) = decode_loop n (record c1 { decode_index = suc c1.decode_index }) in
    if ltb c.decode_index c.processing_end then (c2, handled ++ later) else (c, [])

abbrev pub finish : HsChannel × List Handled → HsChannel × List Handled
finish (c, handled) =
    let (c1, last) = content_handler_thread c in
    if c.is_read_done then (c1, handled ++ last) else (c, handled)

-- A channel that has a content handler.
unfoldable pub decoder : HsChannel → HsChannel × List Handled
unfolding decode_loop content_handler_thread
decoder c = finish (decode_loop (c.processing_end - c.decode_index) c)
