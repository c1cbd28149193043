-- ===== src/Acm/Read.antt =====
-- acm_io_read_thread: messages are cut out of what the socket delivers. One step is one `recv`.
pub mod Frames
pub mod HeadRound
pub mod DataRound
pub mod Delivery
pub mod Answered
use mw_race_service_mesh_c.Base.{
  ℕ, ◌+◌, ◌-◌, ◌%◌, ◌^◌, Bool, true, false, Option, none, some, List, [], ◌∷◌, ◌++◌, ltb, ◌&&◌,
  ◌==◌, get_or, if◌then◌else◌, length, set, take, drop, replicate, write_at, min,
}
use mw_race_service_mesh_c.Acm.Codec.{bytes2int, bytes2long}
use mw_race_service_mesh_c.Acm.Types.{AcmHandle, AcmMsg, AcmChannel, msg_head_size}
use mw_race_service_mesh_c.Acm.Request.{no_entry, Call, called}

-- What `recv` returns: some of the bytes that wait (never more than asked for), or -1. After `starved`,
-- mmpl_getmem has no memory for a message, should its head be complete.
pub data RecvResult : Type 0 where
  got : ℕ → RecvResult
  starved : ℕ → RecvResult
  again : RecvResult
  failed : RecvResult

-- `fault` is a call through a NULL listening function, a negative index, a negative size, or a use of the
-- NULL that mmpl_getmem gave for a message.
pub data Next : Type 0 where
  go_on : Next
  break_loop : Next
  fault : Next

pub record Round : Type 0 where
  pub handle : AcmHandle
  pub channel : AcmChannel
  pub incoming : List ℕ
  pub delivered : List (AcmMsg × Call)
  pub next : Next

abbrev pub round : AcmHandle → AcmChannel → List ℕ → List (AcmMsg × Call) → Next → Round
round h c inc out next = record {
  handle = h;
  channel = c;
  incoming = inc;
  delivered = out;
  next = next;
}

-- The new message, once its head is complete.
unfoldable pub begin_msg : AcmChannel → AcmChannel
unfolding bytes2int bytes2long
begin_msg c =
    let size = bytes2int c.head 8 in
    record c {
      is_head = false;
      recv_msg = record {
        head = record { req_id = bytes2long c.head 0; data_size = size };
        content = replicate size 0;
      };
      data_read_index = 0;
    }

-- `memory` is whether mmpl_getmem has memory for a message.
unfoldable pub read_head : AcmHandle → AcmChannel → List ℕ → Bool → ℕ → Round
unfolding begin_msg
read_head h c inc memory k =
    let n = min k (msg_head_size - c.head_read_index) in
    let got_bytes = take n inc in
    let c1 = record c {
      head = write_at c.head c.head_read_index got_bytes;
      head_read_index = c.head_read_index + length got_bytes;
    } in
    if ltb c1.head_read_index msg_head_size
    then round h c1 (drop n inc) [] break_loop
    else (if memory && ltb (bytes2int c1.head 8) (2 ^ 31)
        then round h (begin_msg c1) (drop n inc) [] go_on
        else round h c1 (drop n inc) [] fault)

abbrev pub free_entry : AcmHandle → ℕ → AcmHandle
free_entry h i = record h {
  request_map =
      set h.request_map i
        (record (get_or h.request_map i no_entry) { listening = none; req_id = 0 });
}

abbrev pub answer : AcmHandle → AcmHandle → AcmChannel → List ℕ → Option Call → Round
answer h freed c inc none = round h c inc [] fault
answer h freed c inc (some call) =
    let m = c.recv_msg in
    round freed (record c { is_head = true; head_read_index = 0 }) inc ((m, call) ∷ []) go_on

-- `req_id%p_handle->max_hold_req_num` on signed numbers: an id with the top bit set is negative, and so
-- is its remainder when it is not zero. The table has entries.
abbrev pub index_of : AcmHandle → ℕ → Option ℕ
index_of h req_id =
    if ltb req_id (2 ^ 63)
    then some (req_id % h.max_hold_req_num)
    else (if (2 ^ 64 - req_id) % h.max_hold_req_num == 0 then some 0 else none)

abbrev pub deliver_at : AcmHandle → AcmChannel → List ℕ → Option ℕ → Round
deliver_at h c inc none = round h c inc [] fault
deliver_at h c inc (some i) =
    let e = get_or h.request_map i no_entry in
    answer h (free_entry h i) c inc (called e.listening e.arg c.recv_msg)

-- The message is complete: its listening function is called, and its entry freed.
unfoldable pub deliver : AcmHandle → AcmChannel → List ℕ → Round
deliver h c inc = deliver_at h c inc (index_of h c.recv_msg.head.req_id)

unfoldable pub read_data : AcmHandle → AcmChannel → List ℕ → ℕ → Round
unfolding deliver
read_data h c inc k =
    let size = c.recv_msg.head.data_size in
    let n = min k (size - c.data_read_index) in
    let got_bytes = take n inc in
    let m = c.recv_msg in
    let c1 = record c {
      recv_msg = record m { content = write_at m.content c.data_read_index got_bytes };
      data_read_index = c.data_read_index + length got_bytes;
    } in
    if ltb c1.data_read_index size
    then round h c1 (drop n inc) [] break_loop
    else deliver h (record c1 { request_num = (c1.request_num + 2 ^ 64 - 1) % 2 ^ 64 }) (drop n inc)

unfoldable pub read_step : AcmHandle → AcmChannel → List ℕ → RecvResult → Round
unfolding read_head read_data
read_step h c inc again = round h c inc [] break_loop
read_step h c inc failed = round h c inc [] break_loop
read_step h c inc (got k) = if c.is_head then read_head h c inc true k else read_data h c inc k
read_step h c inc (starved k) = if c.is_head then read_head h c inc false k else read_data h c inc k

-- A round, and the rest of the loop if it goes on.
abbrev pub follow : Next → Round → Round → Round
follow go_on s rest =
    round rest.handle rest.channel rest.incoming (s.delivered ++ rest.delivered) rest.next
follow break_loop s rest = s
follow fault s rest = s

-- The rounds of one run of the thread; a socket with nothing more to read answers EAGAIN.
unfoldable pub read_loop : AcmHandle → AcmChannel → List ℕ → List RecvResult → Round
unfolding read_step
read_loop h c inc [] = read_step h c inc again
read_loop h c inc (r ∷ rs) =
    let s = read_step h c inc r in
    let rest = read_loop s.handle s.channel s.incoming rs in follow s.next s rest

-- What follows the loop: the reading lock is given back, and EPOLLIN registered again.
abbrev pub leave : Bool → Next → Round → Round
leave epoll_ok fault s = s
leave epoll_ok _ s = record s {
  channel = record (s.channel) {
    reading_locked = false;
    in_armed = if epoll_ok then true else s.channel.in_armed;
  };
}

unfoldable pub io_read_thread : Bool → AcmHandle → AcmChannel → List ℕ → List RecvResult → Round
unfolding read_loop
io_read_thread epoll_ok h c inc rs = let s = read_loop h c inc rs in leave epoll_ok s.next s
