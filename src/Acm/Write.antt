-- ===== src/Acm/Write.antt =====
-- acm_io_write_thread: the consumer of a channel's write queue. One step is one call of `send`.
pub mod Queue
pub mod Stream
pub mod History
pub mod Again
use mw_race_service_mesh_c.Base.{
  ℕ, suc, ◌+◌, ◌-◌, ◌%◌, Bool, true, false, List, [], ◌∷◌, ◌++◌, ◌==◌, ltb, if◌then◌else◌, get_or,
  set, take, drop, replicate, min,
}
use mw_race_service_mesh_c.Acm.Codec.{int2bytes, long2bytes}
use mw_race_service_mesh_c.Acm.Types.{
  AcmHandle, AcmMsgHead, AcmWriteTask, AcmChannel, msg_head_size,
}
use mw_race_service_mesh_c.Acm.Request.{no_task}

-- What `send` returns: the bytes taken (never more than offered), -1 with EAGAIN, or another error.
pub data SendResult : Type 0 where
  sent : ℕ → SendResult
  again : SendResult
  failed : SendResult

-- The `char head[ACM_MSG_HEAD_SIZE]` that the thread fills before it sends.
unfoldable pub head_bytes : AcmMsgHead → List ℕ
unfolding long2bytes int2bytes
head_bytes m = int2bytes m.data_size (long2bytes m.req_id (replicate msg_head_size 0) 0) 8

-- How the loop goes on: another round, out of it with the queue not drained, out of it with an empty
-- queue, or `goto err_ret`.
pub data Next : Type 0 where
  go_on : Next
  break_loop : Next
  drained : Next
  error : Next

pub record Round : Type 0 where
  pub channel : AcmChannel
  pub output : List ℕ
  pub next : Next

abbrev pub round : AcmChannel → List ℕ → Next → Round
round c out next = record { channel = c; output = out; next = next }

module _ (h : AcmHandle) where
  abbrev pub slot : AcmChannel → ℕ
  slot c = (c.write_queue_head + 1) % h.max_write_queue_len

  abbrev pub task_of : AcmChannel → AcmWriteTask
  task_of c = get_or c.write_queue (slot c) no_task

  abbrev pub put_index : AcmChannel → ℕ → AcmChannel
  put_index c i = record c {
    write_queue = set c.write_queue (slot c) (record (task_of c) { write_index = i });
  }

  -- The head of the queue is written out: it is dropped, and the queue looked at.
  abbrev pub finish_task : AcmChannel → List ℕ → Round
  finish_task c out =
      let c1 = record c { write_queue_head = suc c.write_queue_head } in
      if c1.write_queue_head + 1 == c1.write_queue_tail
      then round c1 out drained
      else round c1 out go_on

  -- `if (data_size - (write_index - ACM_MSG_HEAD_SIZE) > 0) break;`
  abbrev pub after_data : AcmChannel → ℕ → List ℕ → Round
  after_data c i out =
      let c1 = put_index c i in
      if ltb i ((task_of c).head.data_size + msg_head_size)
      then round c1 out break_loop
      else finish_task c1 out

  unfoldable pub write_head : AcmChannel → SendResult → Round
  write_head c again = round c [] break_loop
  write_head c failed = round c [] error
  write_head c (sent k) =
      let i = (task_of c).write_index in
      let n = min k (msg_head_size - i) in
      let out = take n (drop i (head_bytes (task_of c).head)) in
      if ltb (i + n) msg_head_size
      then round (put_index c (i + n)) out break_loop
      else round (put_index c (i + n)) out go_on

  -- With EAGAIN the -1 of `send` is added to `write_index`, which is 12 at least here.
  unfoldable pub write_data : AcmChannel → SendResult → Round
  write_data c failed = round c [] error
  write_data c again = after_data c ((task_of c).write_index - 1) []
  write_data c (sent k) =
      let i = (task_of c).write_index in
      let n = min k ((task_of c).head.data_size + msg_head_size - i) in
      after_data c (i + n) (take n (drop (i - msg_head_size) (task_of c).content))

  unfoldable pub write_step : AcmChannel → SendResult → Round
  unfolding write_head write_data
  write_step c r =
      if ltb (task_of c).write_index msg_head_size then write_head c r else write_data c r

  -- The rounds of one run of the thread; a socket that takes no more answers EAGAIN.
  unfoldable pub write_loop : AcmChannel → List SendResult → Round
  unfolding write_step
  write_loop c [] = write_step c again
  write_loop c (r ∷ rs) =
      let s = write_step c r in
      let rest = write_loop s.channel rs in
      elim s.next [ go_on ↦ round rest.channel (s.output ++ rest.output) rest.next | _ ↦ s ]

  -- What follows the loop: a queue that is not drained is given back for another run.
  abbrev pub leave : Bool → Round → AcmChannel × List ℕ
  leave epoll_ok s = elim s.next [
    | break_loop ↦ (
      record (s.channel) {
        consume_locked = false;
        out_armed = if epoll_ok then true else s.channel.out_armed;
      },
      s.output,
    )
    | _ ↦ (s.channel, s.output)
  ]

  unfoldable pub io_write_thread : Bool → AcmChannel → List SendResult → AcmChannel × List ℕ
  unfolding write_loop
  io_write_thread epoll_ok c rs =
      if c.write_queue_head + 1 == c.write_queue_tail
      then (c, [])
      else leave epoll_ok (write_loop c rs)
