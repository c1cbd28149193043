-- ===== src/Http/Io/Answer.antt =====
-- The response that hs_response_ok leaves in the buffer.
use mw_race_service_mesh_c.Base.{
  ℕ, ◌+◌, ◌≤◌, ◌<◌, ◌≡◌, refl, ap, ◌∙◌, inl, inr, Option, none, some, ltb, ltb→lt, leb→le,
  lt→not_leb, length-append, false, ◌^◌, [], ◌∷◌, List, ◌++◌, append_assoc, arith, leb, not_leb→lt,
  Bool-cases, length, take, write_at, length-take,
}
use mw_race_service_mesh_c.Base.Segments.{take-write_at, length-write_at}
use mw_race_service_mesh_c.Base.CString.{decimal, length-decimal}
use mw_race_service_mesh_c.Base.Int.{ℤ, pos, negsuc}
use mw_race_service_mesh_c.Http.Types.{HsChannel}
use mw_race_service_mesh_c.Http.Io.{unsent, response_line, length_header, response_ok}

abbrev pub response : List ℕ → ℕ → List ℕ
response body body_size = response_line ++ (length_header body_size ++ take body_size body)

-- The bytes before the body.
abbrev pub head_size : ℕ → ℕ
head_size body_size = length response_line + length (length_header body_size)

-- A response that the buffer has room for is what hs_io_write will send; one that it has no room for is
-- refused, and nothing more is to be sent than before; when the line and the header alone do not fit
-- they are written past the buffer.
pub data Answered (c : HsChannel) (body : List ℕ) (body_size : ℕ)
    : Option (ℤ × HsChannel) → Type 0 where
  overflows : length c.buffer < head_size body_size → Answered c body body_size none
  answers :
      (c' : HsChannel)
      → head_size body_size + body_size < c.buffer_size
      → unsent c' ≡ response body body_size
      → c'.write_index < c'.write_size
      → Answered c body body_size (some (pos 1, c'))
  refuses :
      (c' : HsChannel)
      → c.buffer_size ≤ head_size body_size + body_size
      → c'.write_size ≡ c.write_size
      → c'.write_index ≡ c.write_index
      → Answered c body body_size (some (negsuc 0, c'))

-- 36 bytes of text and at most ten digits.
pub head_size-le : (body_size : ℕ) → head_size body_size ≤ 46
head_size-le body_size =
    omega
      (arith, length-append (decimal body_size) (13 ∷ 10 ∷ 13 ∷ 10 ∷ []), length-decimal body_size)

three_writes :
    (buf l h b : List ℕ)
    → length l + length h + length b ≤ length buf
    → take
        (length l + length h + length b)
        (write_at (write_at (write_at buf 0 l) (length l) h) (length l + length h) b)
      ≡ l ++ (h ++ b)
three_writes buf l h b fits =
    let buf1 = write_at buf 0 l in
    let buf2 = write_at buf1 (length l) h in
    let size1 : length buf1 ≡ length buf = length-write_at 0 buf l (omega arith) in
    let size2 : length buf2 ≡ length buf1 = length-write_at (length l) buf1 h (omega arith) in
    take-write_at (length l + length h) (length l + length h + length b) buf2 b refl (omega arith)
    ∙ ap (λ x. x ++ b)
        (take-write_at (length l) (length l + length h) buf1 h refl (omega arith)
          ∙ ap (λ x. x ++ h) (take-write_at 0 (length l) buf l (omega arith) (omega arith)))
    ∙ append_assoc l h b

-- hs_response_ok on a buffer of its size, with a body whose size and the bytes before it are within an
-- `int`, answers 1 with the line, the length header and the body to be
-- sent, when they are less than the buffer; when they are not, and the line and the header fit, it
-- answers -1, and nothing more than before is to be sent; and when the line and the header do not fit,
-- it writes past the buffer.
pub response_ok-Answered :
    (c : HsChannel) (body : List ℕ) (body_size : ℕ)
    → length c.buffer ≡ c.buffer_size
    → body_size ≤ length body
    → body_size + 46 < 2 ^ 31
    → Answered c body body_size (response_ok c body body_size)
unfolding response_ok
response_ok-Answered c body body_size sized whole small =
    let int_size : leb (2 ^ 31) (head_size body_size + body_size) ≡ false =
      lt→not_leb _ _ (omega (arith, head_size-le body_size)) in
    let head = length_header body_size in
    let write_index = length response_line + length head in
    let b = take body_size body in
    let count : length b ≡ body_size = omega (arith, length-take body_size body) in
    let buf2 = write_at (write_at c.buffer 0 response_line) (length response_line) head in
    let c1 = record c { buffer = buf2 } in
    let c2 = record c1 {
      buffer = write_at buf2 write_index b;
      write_index = 0;
      write_size = write_index + body_size;
    } in
    elim (Bool-cases (ltb (length c.buffer) write_index)) [
      | inl little ↦ rw int_size (rw little (overflows (ltb→lt _ _ little)))
      | inr inside ↦ rw int_size (
          rw inside (elim (Bool-cases (leb c.buffer_size (write_index + body_size))) [
            | inl large ↦ rw large (refuses c1 (leb→le _ _ large) refl refl)
            | inr fits ↦ rw fits (
                answers c2 (not_leb→lt _ _ fits)
                  (ap (λ n. take n (write_at buf2 write_index b)) {y = write_index + length b}
                      (omega arith)
                    ∙ three_writes c.buffer response_line head b
                        (omega (arith, not_leb→lt _ _ fits)))
                  (omega arith))
          ]))
    ]
