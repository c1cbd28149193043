-- ===== src/Acm/Request.antt =====
-- acm_hold_request, acm_request and acm_response, which nothing calls: a request is held in the request map under its id,
-- and joins the write queue of its channel.
pub mod Held
use mw_race_service_mesh_c.Base.{
  ℕ, suc, ◌+◌, ◌-◌, ◌%◌, ◌^◌, Bool, true, false, Option, none, some, List, [], ◌==◌, ltb,
  if◌then◌else◌, get_or, set,
}
use mw_race_service_mesh_c.Base.Int.{ℤ, pos, negsuc}
use mw_race_service_mesh_c.Acm.Types.{RequestMapEntry, AcmHandle, AcmMsg, AcmWriteTask, AcmChannel}

-- `request_id = __sync_add_and_fetch(&p_handle->request_id, 1)` goes through an `int`, and the `int`
-- is widened to `unsigned long` and to `long` again.
unfoldable pub widened : ℕ → ℕ
widened n = let low = n % 2 ^ 32 in if ltb low (2 ^ 31) then low else low + 2 ^ 64 - 2 ^ 32

-- The id that the next request gets.
abbrev pub next_id : AcmHandle → ℕ
next_id h = widened ((h.request_id + 1) % 2 ^ 64)

-- What a slot that was never written reads as. The tables are read in range only.
abbrev pub no_entry : RequestMapEntry
no_entry = record { req_id = 0; listening = none; arg = 0 }

abbrev pub no_task : AcmWriteTask
no_task = record { write_index = 0; head = record { req_id = 0; data_size = 0 }; content = [] }

abbrev pub entry_of : AcmHandle → ℕ → RequestMapEntry
entry_of h req_id = get_or h.request_map (req_id % h.max_hold_req_num) no_entry

abbrev set_entry : AcmHandle → ℕ → RequestMapEntry → AcmHandle
set_entry h req_id e = record h { request_map = set h.request_map (req_id % h.max_hold_req_num) e }

unfoldable pub hold_request : AcmHandle → ℕ → Option ℕ → ℕ → ℤ × AcmHandle
hold_request h req_id listening arg =
    if (entry_of h req_id).req_id == 0
    then (pos 1, set_entry h req_id (record { req_id = req_id; listening = listening; arg = arg }))
    else (negsuc 1, h)

-- The slot at the tail is written whether or not it is free.
unfoldable pub enqueue : AcmHandle → AcmChannel → ℕ → List ℕ → ℕ → AcmChannel
enqueue h c req_id buf buf_size = record c {
  write_queue = set c.write_queue (c.write_queue_tail % h.max_write_queue_len) (record {
    write_index = 0;
    head = record { req_id = req_id; data_size = buf_size };
    content = buf;
  });
  write_queue_tail = suc c.write_queue_tail;
}

-- acm_request on a channel that is not NULL. The result of acm_hold_request is not looked at.
-- `epoll_ok` is the outcome of epoll_ctl.
unfoldable pub request :
    Bool → AcmHandle → AcmChannel → List ℕ → ℕ → Option ℕ → ℕ → ℤ × AcmHandle × AcmChannel
unfolding widened hold_request enqueue
request epoll_ok h c buf buf_size listening arg =
    let h1 = record h { request_id = (h.request_id + 1) % 2 ^ 64 } in
    let request_id = widened h1.request_id in
    let (held, h2) = hold_request h1 request_id listening arg in
    let is_queue_empty = c.write_queue_head + 1 == c.write_queue_tail in
    let c1 = enqueue h2 c request_id buf buf_size in
    if is_queue_empty
    then (if epoll_ok
        then (pos 1, h2, record c1 { consume_locked = false; out_armed = true })
        else (negsuc 1, h2, record c1 { consume_locked = false }))
    else (pos 1, h2, c1)

-- What a call of a listening function gets.
pub record Call : Type 0 where
  pub listening : ℕ
  pub arg : ℕ
  pub content : List ℕ
  pub data_size : ℕ

abbrev pub called : Option ℕ → ℕ → AcmMsg → Option Call
called none arg m = none
called (some f) arg m =
    some (record { listening = f; arg = arg; content = m.content; data_size = m.head.data_size })

-- acm_response, which nothing calls (its one call is commented out; acm_io_read_thread answers a request
-- itself): the entry is freed before its listening function is looked at.
abbrev respond : AcmHandle → RequestMapEntry → AcmMsg → Option ℕ → Option Call × AcmHandle
respond h e m none = (none, h)
respond h e m (some f) =
    (called (some f) e.arg m, set_entry h m.head.req_id (record e { req_id = 0; listening = none }))

unfoldable pub response : AcmHandle → AcmMsg → Option Call × AcmHandle
response h m =
    let e = entry_of h m.head.req_id in
    respond (set_entry h m.head.req_id (record e { req_id = 0 })) e m e.listening
