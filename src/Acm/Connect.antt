-- ===== src/Acm/Connect.antt =====
-- acm_start and acm_connect, with the outcomes of the calls that they check.
pub mod Fresh
use mw_race_service_mesh_c.Base.{
  ℕ, zero, suc, ◌+◌, ◌-◌, ◌*◌, ◌/◌, ◌%◌, ◌^◌, ◌≤◌, ◌<◌, bit_and, bit_or, min, ◌≡◌, ◌≢◌, refl, sym,
  ap, ap₂, ◌∙◌, subst, ◌↔◌, ◌⊎◌, inl, inr, Bool, true, false, not, ◌&&◌, ◌||◌, Option, none, some,
  some-injective, none-ne-some, List, [], ◌∷◌, ◌++◌, append_assoc, append-nil, arith, ltb, leb,
  ◌==◌, if◌then◌else◌, ltb→lt, not_ltb→le, lt→ltb, le→not_ltb, leb→le, not_leb→lt, ==_iff, ==_refl,
  not_==→≢, not_zero, pos→not_zero, both, not_both, true≢false, Bool-cases, Option-cases, length,
  get_elem?, get_or, set, take, drop, replicate, write_at, All, All-append, length-append,
  length-set, set-set, get_or-set_self, get_or-set_ne, length-take, length-drop, length-replicate,
}
use mw_race_service_mesh_c.Acm.Types.{
  RequestMapEntry, AcmHandle, AcmMsg, AcmWriteTask, AcmChannel, msg_head_size,
}

-- `struct acm_opt`
pub record AcmOpt : Type 0 where
  pub max_write_queue_len : ℕ
  pub max_hold_req_num : ℕ
  pub io_thread_num : ℕ
  pub worker_thread_num : ℕ

-- What a function that returns a pointer comes to: NULL, the pointer to a structure, or a use of NULL.
pub data Made {ℓ} (A : Type ℓ) : Type ℓ where
  null : Made A
  made : A → Made A
  undefined : Made A

-- The calls of acm_start in order. A descriptor or a thread that is refused is -1.
pub record StartCalls : Type 0 where
  pub malloc_ok : Bool
  pub tdpl_io_ok : Bool
  pub tdpl_worker_ok : Bool
  pub mmpl_ok : Bool
  pub request_map_ok : Bool
  pub epoll_write_ok : Bool
  pub epoll_read_ok : Bool
  pub read_loop_ok : Bool
  pub write_loop_ok : Bool

abbrev all_of : List Bool → Bool
all_of [] = true
all_of (b ∷ bs) = b && all_of bs

-- acm_start writes to the handle before it looks at the result of malloc. `memory` is what the request
-- map's memory holds, which is not cleared.
unfoldable pub start : StartCalls → List RequestMapEntry → AcmOpt → Made AcmHandle
start calls memory opt =
    let ok = all_of (
      calls.tdpl_io_ok ∷ calls.tdpl_worker_ok ∷ calls.mmpl_ok ∷ calls.request_map_ok
      ∷ calls.epoll_write_ok ∷ calls.epoll_read_ok ∷ calls.read_loop_ok ∷ calls.write_loop_ok
      ∷ []) in
    if calls.malloc_ok
    then (if ok
        then made (record {
          max_write_queue_len = opt.max_write_queue_len;
          max_hold_req_num = opt.max_hold_req_num;
          request_map = memory;
          request_id = 0;
        })
        else null)
    else undefined

pub record ConnectCalls : Type 0 where
  pub connect_ok : Bool
  pub channel_ok : Bool
  pub write_queue_ok : Bool
  pub add_read_ok : Bool
  pub add_write_ok : Bool

-- What the memory of a new channel and of its queue holds before it is written.
pub record Memory : Type 0 where
  pub tasks : List AcmWriteTask
  pub msg : AcmMsg
  pub head : List ℕ
  pub index : ℕ

abbrev pub new_channel : Memory → AcmChannel
new_channel m = record {
  write_queue = m.tasks;
  write_queue_head = 0;
  write_queue_tail = 1;
  recv_msg = m.msg;
  head = m.head;
  is_head = true;
  head_read_index = 0;
  data_read_index = m.index;
  request_num = 0;
  consume_locked = true;
  reading_locked = false;
  out_armed = true;
  in_armed = true;
}

-- acm_connect on a handle, or on NULL. A socket that is refused is logged only, and connect() fails on
-- it. The new channel is used before it is looked at.
unfoldable pub connect : ConnectCalls → Memory → Option AcmHandle → Made AcmChannel
connect calls m none = null
connect calls m (some h) =
    let registered =
      if calls.write_queue_ok && (calls.add_read_ok && calls.add_write_ok)
      then made (new_channel m)
      else null in
    let stored = if calls.channel_ok then registered else undefined in
    if calls.connect_ok then stored else null

-- An event of epoll_wait on a channel, by the flags that it has.
pub record Event : Type 0 where
  pub err : Bool
  pub rdhup : Bool
  pub readable : Bool
  pub writable : Bool

-- What the event loop does: at most one call of each io thread, or the channel leaves epoll.
pub record Dispatch : Type 0 where
  pub channel : AcmChannel
  pub starts_read : Bool
  pub starts_write : Bool
  pub removed : Bool

abbrev untouched : AcmChannel → Bool → Dispatch
untouched c removed = record {
  channel = c;
  starts_read = false;
  starts_write = false;
  removed = removed;
}

-- The body of the `for` loop of acm_event_loop: a lock that is tried is taken when it is free.
unfoldable pub handle_event : AcmChannel → Event → Dispatch
handle_event c e =
    let starts_read = e.readable && not c.reading_locked in
    let starts_write = e.writable && not c.consume_locked in
    let dispatched : Dispatch = record {
      channel = record c {
        reading_locked = if starts_read then true else c.reading_locked;
        consume_locked = if starts_write then true else c.consume_locked;
      };
      starts_read = starts_read;
      starts_write = starts_write;
      removed = false;
    } in
    if e.err then untouched c false else (if e.rdhup then untouched c true else dispatched)
