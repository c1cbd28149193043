-- ===== src/Http/Io.antt =====
-- hs_io_read, hs_io_write and hs_response_ok.
pub mod Written
pub mod Answer
pub mod Pieces
pub mod Delivered
pub mod Requests
use mw_race_service_mesh_c.Base.{
  ℕ, zero, suc, ◌+◌, ◌-◌, ◌*◌, ◌/◌, ◌%◌, ◌^◌, ◌≤◌, ◌<◌, bit_and, bit_or, min, ◌≡◌, ◌≢◌, refl, sym,
  ap, ap₂, ◌∙◌, subst, ◌↔◌, ◌⊎◌, inl, inr, Bool, true, false, not, ◌&&◌, ◌||◌, Option, none, some,
  some-injective, none-ne-some, List, [], ◌∷◌, ◌++◌, append_assoc, append-nil, arith, ltb, leb,
  ◌==◌, if◌then◌else◌, ltb→lt, not_ltb→le, lt→ltb, le→not_ltb, leb→le, not_leb→lt, ==_iff, ==_refl,
  not_==→≢, le→leb, lt→not_leb, not_zero, pos→not_zero, both, not_both, true≢false, Bool-cases,
  Option-cases, length, get_elem?, get_or, set, take, drop, replicate, write_at, All, All-append,
  length-append, length-set, set-set, get_or-set_self, get_or-set_ne, length-take, length-drop,
  length-replicate,
}
use mw_race_service_mesh_c.Base.Int.{ℤ, pos, negsuc}
use mw_race_service_mesh_c.Base.CString.{decimal}
use mw_race_service_mesh_c.Http.Types.{HsChannel, Handled, init_channel}
use mw_race_service_mesh_c.Http.Decoder.{decoder, content_length_key}

-- What an io call leaves to epoll: the events that it waits for, or a channel that is closed.
pub data Await : Type 0 where
  readable : Await
  writable : Await
  nothing : Await
  closed : Await

pub record Io : Type 0 where
  pub channel : HsChannel
  pub output : List ℕ
  pub handled : List Handled
  pub await : Await

abbrev pub io : HsChannel → List ℕ → List Handled → Await → Io
io c out handled await = record { channel = c; output = out; handled = handled; await = await }

-- What `recv` returns: bytes, no more than the buffer has room for, EAGAIN, or another error.
pub data Received : Type 0 where
  bytes : List ℕ → Received
  again : Received
  failed : Received

abbrev pub decoded : HsChannel × List Handled → Io
decoded (c, handled) = io c [] handled (if c.is_read_done then nothing else readable)

-- hs_io_read, with epoll_ctl successful.
unfoldable pub io_read : HsChannel → Received → Io
unfolding decoder
io_read c again = io c [] [] readable
io_read c failed = io (record c { write_index = 0; write_size = 0 }) [] [] writable
io_read c (bytes bs) =
    let n = min (length bs) (c.buffer_size - c.read_index) in
    let read_index = c.read_index + n in
    decoded (
      decoder (record c {
        buffer = write_at c.buffer c.read_index (take n bs);
        read_index = read_index;
        is_read_done = if leb c.buffer_size read_index then true else c.is_read_done;
        processing_end = read_index;
      }))

abbrev pub unsent : HsChannel → List ℕ
unsent c = take (c.write_size - c.write_index) (drop c.write_index c.buffer)

-- hs_io_write, with epoll_ctl successful and the outcome of `send`: the number of bytes that were
-- taken, or -1.
-- A channel whose response is written out is ready for the next request.
abbrev pub rearmed : HsChannel → HsChannel
rearmed c = if leb c.write_size c.write_index then init_channel c else c

abbrev pub send_rest : HsChannel → Option ℕ → Io
send_rest c none = io c [] [] closed
send_rest c (some k) =
    let n = min k (c.write_size - c.write_index) in
    let c1 = record c { write_index = c.write_index + n } in
    let out = take n (drop c.write_index c.buffer) in
    if leb c1.write_size c1.write_index
    then io (init_channel c1) out [] readable
    else io c1 out [] writable

unfoldable pub io_write : HsChannel → Option ℕ → Io
unfolding init_channel
io_write c sent = send_rest (rearmed c) sent

-- HTTP_SERVER_RESPONSE_OK
abbrev pub response_line : List ℕ
response_line =
    72 ∷ 84 ∷ 84 ∷ 80 ∷ 47 ∷ 49 ∷ 46 ∷ 49 ∷ 32 ∷ 50 ∷ 48 ∷ 48 ∷ 32 ∷ 79 ∷ 75 ∷ 13 ∷ 10 ∷ []

-- "content-length:%d\r\n\r\n"
abbrev pub length_header : ℕ → List ℕ
length_header body_size =
    content_length_key ++ (58 ∷ (decimal body_size ++ (13 ∷ 10 ∷ 13 ∷ 10 ∷ [])))

-- hs_response_ok: the line and the header are in the buffer before the size is looked at. `none` is
-- undefined: they do not fit into the memory of the buffer, or the whole size overflows an `int`.
unfoldable pub response_ok : HsChannel → List ℕ → ℕ → Option (ℤ × HsChannel)
unfolding decimal
response_ok c body body_size =
    let start = length response_line in
    let head = length_header body_size in
    let write_index = start + length head in
    let c1 = record c { buffer = write_at (write_at c.buffer 0 response_line) start head } in
    let answered : ℤ × HsChannel =
      if leb c.buffer_size (write_index + body_size) then (negsuc 0, c1) else (
        pos 1,
        record c1 {
          buffer = write_at c1.buffer write_index (take body_size body);
          write_index = 0;
          write_size = write_index + body_size;
        },
      ) in
    if leb (2 ^ 31) (write_index + body_size) || ltb (length c.buffer) write_index
    then none
    else some answered
