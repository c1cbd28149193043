-- ===== src/Acm/Write/History.antt =====
-- A channel over time: any thread may call acm_request between two rounds of the write thread.
use mw_race_service_mesh_c.Base.{
  ℕ, suc, ◌+◌, ◌-◌, ◌%◌, ◌≤◌, ◌<◌, ◌≡◌, ◌≢◌, refl, sym, ap, ◌∙◌, ◌⊎◌, Bool, Option, List, [], ◌∷◌,
  ◌++◌, append_assoc, append-nil, arith, All, All-append, drop, length, set, length-set,
}
use mw_race_service_mesh_c.Base.Slots.{window, window-set_end}
use mw_race_service_mesh_c.Acm.Types.{AcmHandle, AcmWriteTask, AcmChannel, msg_head_size}
use mw_race_service_mesh_c.Acm.Request.{no_task, next_id, request}
use mw_race_service_mesh_c.Acm.Write.{SendResult, again, task_of, write_step}
use mw_race_service_mesh_c.Acm.Write.Queue.{tasks, IsQueue}
use mw_race_service_mesh_c.Acm.Write.Stream.{frame, IsTask, unsent, write_step-Conserves}

-- A channel with its handle, the bytes on its wire, and the frames of the requests that it was given.
pub record Link : Type 0 where
  pub handle : AcmHandle
  pub channel : AcmChannel
  pub wire : List ℕ
  pub asked : List ℕ

abbrev pub new_task : ℕ → List ℕ → ℕ → AcmWriteTask
new_task req_id buf buf_size = record {
  write_index = 0;
  head = record { req_id = req_id; data_size = buf_size };
  content = buf;
}

-- A request finds a free slot and has its payload at hand. A round finds a task, and EAGAIN comes
-- within a head only.
pub data Step (l m : Link) : Type 0 where
  asks :
      (epoll_ok : Bool) (buf : List ℕ) (buf_size : ℕ) (listening : Option ℕ) (arg : ℕ)
      → buf_size ≤ length buf
      → l.channel.write_queue_tail ≤ l.channel.write_queue_head + l.handle.max_write_queue_len
      → m ≡ record {
        handle = (request epoll_ok l.handle l.channel buf buf_size listening arg).1;
        channel = (request epoll_ok l.handle l.channel buf buf_size listening arg).2;
        wire = l.wire;
        asked = l.asked ++ frame (new_task (next_id l.handle) buf buf_size);
      }
      → Step l m
  sends :
      (r : SendResult)
      → l.channel.write_queue_head + 1 < l.channel.write_queue_tail
      → (r ≢ again) ⊎ ((task_of l.handle l.channel).write_index < msg_head_size)
      → m ≡ record {
        handle = l.handle;
        channel = (write_step l.handle l.channel r).channel;
        wire = l.wire ++ (write_step l.handle l.channel r).output;
        asked = l.asked;
      }
      → Step l m

pub data Reach (l : Link) : Link → Type 0 where
  here : Reach l l
  next : {m n : Link} → Reach l m → Step m n → Reach l n

-- What was asked for is what is on the wire and what is still to be sent, in order.
pub record InOrder (l : Link) : Type 0 where
  pub queue : IsQueue l.handle l.channel
  pub valid : All IsTask (tasks l.handle l.channel)
  pub stream : l.wire ++ unsent (tasks l.handle l.channel) ≡ l.asked

unsent-append :
    (ts : List AcmWriteTask) (t : AcmWriteTask)
    → t.write_index ≡ 0
    → unsent (ts ++ (t ∷ [])) ≡ unsent ts ++ frame t
unsent-append [] t e = append-nil (drop t.write_index (frame t)) ∙ ap (λ k. drop k (frame t)) e
unsent-append (x ∷ ts) t e =
    ap (◌++◌ (drop x.write_index (frame x))) (unsent-append ts t e)
    ∙ sym (append_assoc (drop x.write_index (frame x)) (unsent ts) (frame t))

-- acm_request leaves the tasks of the queue, with its own behind them.
pub record Enqueued (h : AcmHandle) (c : AcmChannel) (t : AcmWriteTask) (h' : AcmHandle)
    (c' : AcmChannel) : Type 0 where
  pub period : h'.max_write_queue_len ≡ h.max_write_queue_len
  pub array : c'.write_queue ≡ set c.write_queue (c.write_queue_tail % h.max_write_queue_len) t
  pub first : c'.write_queue_head ≡ c.write_queue_head
  pub last : c'.write_queue_tail ≡ suc c.write_queue_tail

pub request-Enqueued :
    (ok : Bool) (h : AcmHandle) (c : AcmChannel) (buf : List ℕ) (buf_size : ℕ) (f : Option ℕ)
    (arg : ℕ)
    → Enqueued h c
        (new_task (next_id h) buf buf_size)
        (request ok h c buf buf_size f arg).1
        (request ok h c buf buf_size f arg).2
unfolding request
request-Enqueued ok h c buf buf_size f arg = record {
  period = ground arith;
  array = ground arith;
  first = ground arith;
  last = ground arith;
}

module _ {h : AcmHandle} {c : AcmChannel} {t : AcmWriteTask} {h' : AcmHandle} {c' : AcmChannel}
    (s : Enqueued h c t h' c') (q : IsQueue h c)
    (room : c.write_queue_tail ≤ c.write_queue_head + h.max_write_queue_len) where
  IsQueue-Enqueued : IsQueue h' c'
  IsQueue-Enqueued = record {
    storage =
        rw (s.period, s.array)
          (rw (length-set c.write_queue (c.write_queue_tail % h.max_write_queue_len) t) q.storage);
    ordered = rw (s.first, s.last) (omega (arith, q.ordered));
    bounded = rw (s.first, s.last, s.period) (omega arith);
  }

  tasks-Enqueued : tasks h' c' ≡ tasks h c ++ (t ∷ [])
  tasks-Enqueued =
      rw (s.period, s.array, s.first, s.last)
        (ap (window no_task h.max_write_queue_len _ (c.write_queue_head + 1)) count
          ∙ window-set_end no_task h.max_write_queue_len c.write_queue t (c.write_queue_head + 1)
              (c.write_queue_tail - (c.write_queue_head + 1)) c.write_queue_tail
              (omega (arith, q.ordered)) q.storage (omega (arith, q.ordered)))
    where
      count :
          suc c.write_queue_tail - (c.write_queue_head + 1)
          ≡ suc (c.write_queue_tail - (c.write_queue_head + 1))
      count = omega (arith, q.ordered)

Step-InOrder : {l m : Link} → Step l m → InOrder l → InOrder m
Step-InOrder {l} (asks ok buf buf_size f arg payload room e) v =
    let s = request-Enqueued ok l.handle l.channel buf buf_size f arg in
    let t = new_task (next_id l.handle) buf buf_size in
    let old = tasks l.handle l.channel in
    rw e (record {
      queue = IsQueue-Enqueued s v.queue room;
      valid = rw (tasks-Enqueued s v.queue room) (
          All-append IsTask old (t ∷ []) v.valid
            (record { payload = payload; index = omega arith }, tt));
      stream =
          rw (tasks-Enqueued s v.queue room, unsent-append old t refl)
            (sym (append_assoc l.wire (unsent old) (frame t)) ∙ ap (λ xs. xs ++ frame t) v.stream);
    })
Step-InOrder {l} (sends r ne ok e) v =
    let s = write_step-Conserves l.handle l.channel v.queue ne v.valid r ok in
    rw e (record {
      queue = s.queue;
      valid = s.valid;
      stream =
          append_assoc l.wire (write_step l.handle l.channel r).output _
          ∙ ap (◌++◌ l.wire) s.stream
          ∙ v.stream;
    })

Reach-InOrder : {l m : Link} → InOrder l → Reach l m → InOrder m
Reach-InOrder v here = v
Reach-InOrder v (next r s) = Step-InOrder s (Reach-InOrder v r)

-- Whatever the interleaving of requests and rounds, and whatever the socket takes at a time, if
-- requests find free slots and EAGAIN comes within heads only: the queue keeps its order, and what is
-- on the wire, followed by what the queue has still to send, is the frames of all requests in the
-- order in which they were made.
pub wire-InOrder : {l m : Link} → InOrder l → Reach l m → InOrder m
wire-InOrder v r = Reach-InOrder v r

-- Under the same conditions, once the queue is empty the frames of all requests, and nothing else, are
-- on the wire.
pub wire-drained :
    {l m : Link}
    → InOrder l
    → Reach l m
    → m.channel.write_queue_tail ≡ m.channel.write_queue_head + 1
    → m.wire ≡ m.asked
wire-drained {m = m} v r e =
    let none_left : m.channel.write_queue_tail - (m.channel.write_queue_head + 1) ≡ 0 =
      omega arith in
    let no_tasks : tasks m.handle m.channel ≡ [] =
      ap
        (window no_task m.handle.max_write_queue_len m.channel.write_queue
          (m.channel.write_queue_head + 1))
        none_left in
    sym (append-nil m.wire) ∙ (rw no_tasks at (Reach-InOrder v r).stream)
