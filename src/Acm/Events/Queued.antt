-- ===== src/Acm/Events/Queued.antt =====
-- What an event of a channel brings to the thread pool.
use mw_race_service_mesh_c.Base.{
  ℕ, suc, ◌%◌, ◌<◌, ◌≡◌, refl, ap, ◌∙◌, Bool, true, false, some, arith, ◌==◌, set, if◌then◌else◌,
  ≢→not_==,
}
use mw_race_service_mesh_c.Base.Int.{ℤ, pos}
use mw_race_service_mesh_c.Acm.Types.{AcmChannel}
use mw_race_service_mesh_c.Acm.Connect.{Event, Dispatch, handle_event}
use mw_race_service_mesh_c.Acm.Connect.Fresh.{Exclusive, handle_event-Exclusive}
use mw_race_service_mesh_c.Acm.Events.{io_do_read, io_do_write, run_event}
use mw_race_service_mesh_c.ThreadPool.{Tdpl, TdplCallNode, call_func, enqueue}
use mw_race_service_mesh_c.ThreadPool.Schedule.{World, Always, Reach, fresh}
use mw_race_service_mesh_c.ThreadPool.Schedule.Counted.{fresh_Reach-IsCounted}

-- A pool with one more call at the end of its queue, and one more to wake for.
abbrev pub joined : Tdpl → TdplCallNode → Tdpl
joined p node = record p {
  call_queue = set p.call_queue (p.call_queue_tail % p.call_queue_period) node;
  call_queue_tail = suc p.call_queue_tail;
  call_wait_n = suc p.call_wait_n;
}

abbrev pub joined_if : Bool → TdplCallNode → Tdpl → Tdpl
joined_if b node p = if b then joined p node else p

module _ (io_thread : ℕ) (p : Tdpl) (a : ℕ) (room : p.call_queue_head < p.call_queue_tail) where
  open_queue : (p.call_queue_head == p.call_queue_tail) ≡ false
  open_queue = ≢→not_== p.call_queue_head p.call_queue_tail (λ e. absurd (omega (arith, room, e)))

  io_do_read-joins :
      io_do_read io_thread p (some a)
      ≡ (pos 1, joined p (record { arg = a; call_func = io_thread }))
  unfolding io_do_read call_func enqueue
  io_do_read-joins = rw open_queue refl

  io_do_write-joins :
      io_do_write io_thread p (some a)
      ≡ (pos 1, joined p (record { arg = a; call_func = io_thread }))
  unfolding io_do_write call_func enqueue
  io_do_write-joins = rw open_queue refl

-- The locks and the calls: a call of an io thread is written at the end of the queue exactly when its lock
-- was taken for it, the read thread's before the write thread's.
pub record Queued (rd wr : ℕ) (p : Tdpl) (a : ℕ) (c : AcmChannel) (e : Event) (r : Dispatch × Tdpl)
    : Type 0 where
  pub exclusive : Exclusive c e r.0
  pub pool :
      r.1
      ≡ joined_if r.0.starts_write
          (record { arg = a; call_func = wr })
          (joined_if r.0.starts_read (record { arg = a; call_func = rd }) p)

calls_in_turn :
    (rd wr : ℕ) (p : Tdpl) (a : ℕ) (reads writes : Bool)
    → p.call_queue_head < p.call_queue_tail
    → (let p1 = if reads then (io_do_read rd p (some a)).1 else p in
        if writes then (io_do_write wr p1 (some a)).1 else p1)
      ≡ joined_if writes
          (record { arg = a; call_func = wr })
          (joined_if reads (record { arg = a; call_func = rd }) p)
calls_in_turn rd wr p a true true room =
    ap (λ (x : ℤ × Tdpl). (io_do_write wr x.1 (some a)).1) (io_do_read-joins rd p a room)
    ∙ ap (λ (x : ℤ × Tdpl). x.1)
        (io_do_write-joins wr (joined p (record { arg = a; call_func = rd })) a
          (omega (arith, room)))
calls_in_turn rd wr p a true false room = ap (λ (x : ℤ × Tdpl). x.1) (io_do_read-joins rd p a room)
calls_in_turn rd wr p a false true room = ap (λ (x : ℤ × Tdpl). x.1) (io_do_write-joins wr p a room)
calls_in_turn rd wr p a false false room = refl

-- Whatever the callers and workers of the pool did from its creation on, also when more calls wait than
-- the queue has slots, an event of a channel takes a lock that was free, and none on an error or when
-- the peer has closed; for each lock that it takes, and for no other, it writes the call of the io
-- thread that the lock is for into the slot of the tail, and advances the tail and the semaphore by
-- one.
pub run_event-Queued :
    (threads max_wait : ℕ) {w : World} (rd wr a : ℕ) (c : AcmChannel) (e : Event)
    → Reach Always (fresh threads max_wait) w
    → Queued rd wr w.pool a c e (run_event rd wr w.pool a c e)
unfolding run_event
run_event-Queued threads max_wait {w} rd wr a c e r =
    let i = fresh_Reach-IsCounted threads max_wait r in
    let d = handle_event c e in
    record {
      exclusive = handle_event-Exclusive c e;
      pool = calls_in_turn rd wr w.pool a d.starts_read d.starts_write (omega (arith, i.counted));
    }
