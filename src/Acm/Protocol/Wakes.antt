-- ===== src/Acm/Protocol/Wakes.antt =====
-- The phases of a write queue between acm_request, acm_event_loop and acm_io_write_thread.
use mw_race_service_mesh_c.Base.{
  ℕ, suc, ◌+◌, ◌<◌, ◌≡◌, ◌≢◌, refl, sym, ◌∙◌, subst, ◌⊎◌, inl, inr, Bool, true, false, ◌||◌,
  true≢false, List, arith, ◌==◌, ==_iff, not_==→≢, Bool-cases,
}
use mw_race_service_mesh_c.Acm.Types.{AcmHandle}
use mw_race_service_mesh_c.Acm.Request.{enqueue}
use mw_race_service_mesh_c.Acm.Connect.{Memory, new_channel, handle_event}
use mw_race_service_mesh_c.Acm.Protocol.{
  Shared, write_event, Step, enqueues, opens, arms, arms_fails, fires, fires_again, handles,
  finishes, yields, stops, Reach, here, next, add_task, release, drop_task, dispatch,
}

abbrev pub Empty : Shared → Type 0
Empty s = s.channel.write_queue_tail ≡ s.channel.write_queue_head + 1

abbrev pub Filled : Shared → Type 0
Filled s = s.channel.write_queue_head + 1 < s.channel.write_queue_tail

-- A consumer will be started: the event is being registered, is registered, or waits for the loop.
abbrev pub IsWoken : Shared → Type 0
IsWoken s = (0 < s.arming) ⊎ (s.channel.out_armed ≡ true) ⊎ (0 < s.events)

-- The phases of a channel: an empty queue whose lock is held, a request about to release it, one consumer
-- that holds it, a free lock with a wake-up on its way or one that was lost, or a lock that is held for
-- ever.
pub data Phase (s : Shared) : Type 0 where
  idle : s.channel.consume_locked ≡ true → Empty s → s.opening ≡ 0 → s.running ≡ 0 → Phase s
  opening : s.channel.consume_locked ≡ true → Filled s → s.opening ≡ 1 → s.running ≡ 0 → Phase s
  consuming : s.channel.consume_locked ≡ true → Filled s → s.opening ≡ 0 → s.running ≡ 1 → Phase s
  ready :
      s.channel.consume_locked ≡ false
      → Filled s
      → s.opening ≡ 0
      → s.running ≡ 0
      → IsWoken s ⊎ (s.lost ≡ true)
      → Phase s
  abandoned :
      s.channel.consume_locked ≡ true
      → Filled s
      → s.opening ≡ 0
      → s.running ≡ 0
      → s.stopped ≡ true
      → Phase s

filled :
    (s : Shared) → Filled s → (s.channel.write_queue_head + 1 == s.channel.write_queue_tail) ≡ false
filled s f = ground arith

nat_ne : (i j : ℕ) → i + 1 < j → suc i + 1 ≢ j → suc i + 1 < j
nat_ne i j h ne = ground arith

add_task-Phase :
    (h : AcmHandle) (s : Shared) (req_id : ℕ) (buf : List ℕ) (size : ℕ)
    → Phase s
    → Phase (add_task h s req_id buf size)
unfolding enqueue
add_task-Phase h s req_id buf size (idle l e o r) =
    let now : (s.channel.write_queue_head + 1 == s.channel.write_queue_tail) ≡ true =
      ground arith in
    opening l (omega arith) (rw now (omega arith)) r
add_task-Phase h s req_id buf size (opening l f o r) = opening l (omega arith) (rw (filled s f) o) r
add_task-Phase h s req_id buf size (consuming l f o r) =
    consuming l (omega arith) (rw (filled s f) o) r
add_task-Phase h s req_id buf size (ready l f o r w) = ready l (omega arith) (rw (filled s f) o) r w
add_task-Phase h s req_id buf size (abandoned l f o r t) =
    abandoned l (omega arith) (rw (filled s f) o) r t

release_opening-Phase :
    (s : Shared) (n : ℕ) → s.opening ≡ suc n → Phase s → Phase (release (record s { opening = n }))
release_opening-Phase s n e (idle l f o r) = absurd (omega arith)
release_opening-Phase s n e (opening l f o r) =
    ready refl f (omega arith) r (inl (inl (omega arith)))
release_opening-Phase s n e (consuming l f o r) = absurd (omega arith)
release_opening-Phase s n e (ready l f o r w) = absurd (omega arith)
release_opening-Phase s n e (abandoned l f o r t) = absurd (omega arith)

release_running-Phase :
    (s : Shared) (n : ℕ) → s.running ≡ suc n → Phase s → Phase (release (record s { running = n }))
release_running-Phase s n e (idle l f o r) = absurd (omega arith)
release_running-Phase s n e (opening l f o r) = absurd (omega arith)
release_running-Phase s n e (consuming l f o r) =
    ready refl f o (omega arith) (inl (inl (omega arith)))
release_running-Phase s n e (ready l f o r w) = absurd (omega arith)
release_running-Phase s n e (abandoned l f o r t) = absurd (omega arith)

-- Steps that touch the wake-up only.
rewoken :
    (s v : Shared)
    → v.channel.consume_locked ≡ s.channel.consume_locked
    → v.channel.write_queue_head ≡ s.channel.write_queue_head
    → v.channel.write_queue_tail ≡ s.channel.write_queue_tail
    → v.opening ≡ s.opening
    → v.running ≡ s.running
    → v.stopped ≡ s.stopped
    → IsWoken v ⊎ (v.lost ≡ true)
    → Phase s
    → Phase v
rewoken s v el eh et eo er es w (idle l f o r) = idle (el ∙ l) (omega arith) (eo ∙ o) (er ∙ r)
rewoken s v el eh et eo er es w (opening l f o r) = opening (el ∙ l) (omega arith) (eo ∙ o) (er ∙ r)
rewoken s v el eh et eo er es w (consuming l f o r) =
    consuming (el ∙ l) (omega arith) (eo ∙ o) (er ∙ r)
rewoken s v el eh et eo er es w (ready l f o r _) = ready (el ∙ l) (omega arith) (eo ∙ o) (er ∙ r) w
rewoken s v el eh et eo er es w (abandoned l f o r t) =
    abandoned (el ∙ l) (omega arith) (eo ∙ o) (er ∙ r) (es ∙ t)

-- An event that finds the lock taken, or is not acted upon, changes nothing but the wake-up.
unheard-Phase :
    (s : Shared) (n : ℕ) (lost : Bool)
    → (s.channel.consume_locked ≡ true) ⊎ (lost ≡ true)
    → Phase s
    → Phase (record s { events = n; lost = lost })
unheard-Phase s n lost why (idle l f o r) = idle l f o r
unheard-Phase s n lost why (opening l f o r) = opening l f o r
unheard-Phase s n lost why (consuming l f o r) = consuming l f o r
unheard-Phase s n lost why (abandoned l f o r t) = abandoned l f o r t
unheard-Phase s n lost (inl locked) (ready l f o r w) = absurd (true≢false (sym locked ∙ l))
unheard-Phase s n lost (inr is_lost) (ready l f o r w) = ready l f o r (inr is_lost)

or_true : (b : Bool) → (b || true) ≡ true
or_true true = refl
or_true false = refl

dispatch-Phase :
    (s : Shared) (n : ℕ) (err rdhup writable : Bool)
    → Phase s
    → Phase (dispatch s n (write_event err rdhup writable))
unfolding handle_event
dispatch-Phase s n true rdhup writable p =
    unheard-Phase s n (s.lost || true) (inr (or_true s.lost)) p
dispatch-Phase s n false true writable p =
    unheard-Phase s n (s.lost || true) (inr (or_true s.lost)) p
dispatch-Phase s n false false false p = unheard-Phase s n (s.lost || true) (inr (or_true s.lost)) p
dispatch-Phase s n false false true (idle l f o r) = idle (rw l refl) f o (rw l (omega arith))
dispatch-Phase s n false false true (opening l f o r) = opening (rw l refl) f o (rw l (omega arith))
dispatch-Phase s n false false true (consuming l f o r) =
    consuming (rw l refl) f o (rw l (omega arith))
dispatch-Phase s n false false true (ready l f o r w) =
    consuming (rw l refl) f o (rw l (omega arith))
dispatch-Phase s n false false true (abandoned l f o r t) =
    abandoned (rw l refl) f o (rw l (omega arith)) t

drop_task-Phase : (s : Shared) (n : ℕ) → s.running ≡ suc n → Phase s → Phase (drop_task s n)
drop_task-Phase s n e (idle l f o r) = absurd (omega arith)
drop_task-Phase s n e (opening l f o r) = absurd (omega arith)
drop_task-Phase s n e (ready l f o r w) = absurd (omega arith)
drop_task-Phase s n e (abandoned l f o r t) = absurd (omega arith)
drop_task-Phase s n e (consuming l f o r) =
    elim (Bool-cases (suc s.channel.write_queue_head + 1 == s.channel.write_queue_tail)) [
      | inl last ↦
          let eq =
            (==_iff (suc s.channel.write_queue_head + 1) s.channel.write_queue_tail).0 last in
          idle l (sym eq) o (rw last (omega arith))
      | inr more ↦
          let ne = not_==→≢ (suc s.channel.write_queue_head + 1) s.channel.write_queue_tail more in
          consuming l (nat_ne s.channel.write_queue_head s.channel.write_queue_tail f ne) o
            (rw more (omega arith))
    ]

stopped-Phase :
    (s : Shared) (n : ℕ)
    → s.running ≡ suc n
    → Phase s
    → Phase (record s { running = n; stopped = true })
stopped-Phase s n e (idle l f o r) = absurd (omega arith)
stopped-Phase s n e (opening l f o r) = absurd (omega arith)
stopped-Phase s n e (consuming l f o r) = abandoned l f o (omega arith) refl
stopped-Phase s n e (ready l f o r w) = absurd (omega arith)
stopped-Phase s n e (abandoned l f o r t) = absurd (omega arith)

Step-Phase : (h : AcmHandle) (s v : Shared) → Step h s v → Phase s → Phase v
Step-Phase h s v (enqueues req_id buf size e) p =
    subst Phase (sym e) (add_task-Phase h s req_id buf size p)
Step-Phase h s v (opens n some_left e) p =
    subst Phase (sym e) (release_opening-Phase s n some_left p)
Step-Phase h s v (arms n some_left e) p =
    let armed : Shared = record s {
      channel = record (s.channel) { out_armed = true };
      arming = n;
    } in
    subst Phase (sym e) (rewoken s armed refl refl refl refl refl refl (inl (inr (inl refl))) p)
Step-Phase h s v (fires armed e) p =
    let fired : Shared = record s {
      channel = record (s.channel) { out_armed = false };
      events = suc s.events;
    } in
    subst Phase (sym e)
      (rewoken s fired refl refl refl refl refl refl (inl (inr (inr (omega arith)))) p)
Step-Phase h s v (fires_again armed e) p =
    let fired : Shared = record s { events = suc s.events } in
    subst Phase (sym e)
      (rewoken s fired refl refl refl refl refl refl (inl (inr (inr (omega arith)))) p)
Step-Phase h s v (arms_fails n some_left e) p =
    let failed : Shared = record s { arming = n; lost = true } in
    subst Phase (sym e) (rewoken s failed refl refl refl refl refl refl (inr refl) p)
Step-Phase h s v (handles n err rdhup writable some_left e) p =
    subst Phase (sym e) (dispatch-Phase s n err rdhup writable p)
Step-Phase h s v (finishes n some_left e) p = subst Phase (sym e) (drop_task-Phase s n some_left p)
Step-Phase h s v (yields n some_left e) p =
    subst Phase (sym e) (release_running-Phase s n some_left p)
Step-Phase h s v (stops n some_left e) p = subst Phase (sym e) (stopped-Phase s n some_left p)

-- A channel that acm_connect has just made.
abbrev pub connected : Memory → Shared
connected m = record {
  channel = new_channel m;
  opening = 0;
  arming = 0;
  events = 0;
  running = 0;
  lost = false;
  stopped = false;
}

Reach-Phase : (h : AcmHandle) (s : Shared) {v : Shared} → Phase s → Reach h s v → Phase v
Reach-Phase h s p here = p
Reach-Phase h s p (next {v} {u} r st) = Step-Phase h v u st (Reach-Phase h s p r)

-- From acm_connect on, however requests, the event loop and consumers are interleaved, and whatever
-- epoll_ctl, `send` and the flags of the events are: an empty queue is locked and has no consumer; a
-- queue with tasks has exactly one consumer, which holds the lock, or a request that is about to
-- release it, or a free lock. A free lock has a wake-up that is being registered, registered or waiting
-- for the event loop, unless an epoll_ctl has failed or an event came with EPOLLERR or EPOLLRDHUP or
-- without EPOLLOUT. The lock of a queue with tasks is held without a consumer or such a request only
-- after a consumer has ended in an error of `send`, or its call has got lost in a full thread pool.
pub connected-Phase : (h : AcmHandle) (m : Memory) {s : Shared} → Reach h (connected m) s → Phase s
connected-Phase h m r = Reach-Phase h (connected m) (idle refl refl refl refl) r
