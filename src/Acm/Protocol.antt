-- ===== src/Acm/Protocol.antt =====
-- The consume lock of a write queue and EPOLLOUT: how the threads that call acm_request, the event
-- loop and the io write threads hand the queue to each other. A step is a critical section or an
-- atomic operation of one of them, those that fail included.
pub mod Wakes
use mw_race_service_mesh_c.Base.{
  ℕ, zero, suc, ◌+◌, ◌-◌, ◌*◌, ◌/◌, ◌%◌, ◌^◌, ◌≤◌, ◌<◌, bit_and, bit_or, min, ◌≡◌, ◌≢◌, refl, sym,
  ap, ap₂, ◌∙◌, subst, ◌↔◌, ◌⊎◌, inl, inr, Bool, true, false, not, ◌&&◌, ◌||◌, Option, none, some,
  some-injective, none-ne-some, List, [], ◌∷◌, ◌++◌, append_assoc, append-nil, arith, ltb, leb,
  ◌==◌, if◌then◌else◌, ltb→lt, not_ltb→le, lt→ltb, le→not_ltb, leb→le, not_leb→lt, ==_iff, ==_refl,
  not_==→≢, le→leb, lt→not_leb, not_zero, pos→not_zero, both, not_both, true≢false, Bool-cases,
  Option-cases, length, get_elem?, get_or, set, take, drop, replicate, write_at, All, All-append,
  length-append, length-set, set-set, get_or-set_self, get_or-set_ne, length-take, length-drop,
  length-replicate,
}
use mw_race_service_mesh_c.Acm.Types.{AcmHandle, AcmChannel}
use mw_race_service_mesh_c.Acm.Request.{enqueue}
use mw_race_service_mesh_c.Acm.Connect.{Event, handle_event}

-- A channel between its threads: `opening` requests found the queue empty and have still to release
-- the lock, `arming` threads have released it and not yet called acm_epoll_mod, `events` wait for the
-- event loop, and `running` consumers are in the loop of acm_io_write_thread, or their call of it waits
-- in the thread pool. `lost` says that an epoll_ctl has failed or an event was not acted upon, and
-- `stopped` that a consumer has ended in an error of `send`, or its call has got lost in a full pool.
pub record Shared : Type 0 where
  pub channel : AcmChannel
  pub opening : ℕ
  pub arming : ℕ
  pub events : ℕ
  pub running : ℕ
  pub lost : Bool
  pub stopped : Bool

-- An event of the epoll of the write loop, on which EPOLLIN is not registered.
abbrev pub write_event : Bool → Bool → Bool → Event
write_event err rdhup writable = record {
  err = err;
  rdhup = rdhup;
  readable = false;
  writable = writable;
}

module _ (h : AcmHandle) where
  -- The critical section of acm_request.
  abbrev pub add_task : Shared → ℕ → List ℕ → ℕ → Shared
  add_task s req_id buf buf_size = record s {
    channel = enqueue h s.channel req_id buf buf_size;
    opening =
        if s.channel.write_queue_head + 1 == s.channel.write_queue_tail
        then suc s.opening
        else s.opening;
  }

-- The lock is released, by a request or by a consumer that leaves a queue with tasks in it.
abbrev pub release : Shared → Shared
release s = record s {
  channel = record (s.channel) { consume_locked = false };
  arming = suc s.arming;
}

-- The head task is dropped; a consumer that has emptied the queue ends and keeps the lock.
abbrev pub drop_task : Shared → ℕ → Shared
drop_task s others =
    let c = record (s.channel) { write_queue_head = suc s.channel.write_queue_head } in
    record s {
      channel = c;
      running = if c.write_queue_head + 1 == c.write_queue_tail then others else suc others;
    }

-- The event loop at an event. One with EPOLLERR or EPOLLRDHUP, or without EPOLLOUT, is not acted upon.
abbrev pub dispatch : Shared → ℕ → Event → Shared
dispatch s events e =
    let d = handle_event s.channel e in
    record s {
      channel = d.channel;
      events = events;
      running = if d.starts_write then suc s.running else s.running;
      lost = s.lost || (e.err || e.rdhup || not e.writable);
    }

-- `fires` is an event of a registration with EPOLLONESHOT, `fires_again` one of acm_connect's
-- registration, which lacks that flag.
pub data Step (h : AcmHandle) (s v : Shared) : Type 0 where
  enqueues :
      (req_id : ℕ) (buf : List ℕ) (buf_size : ℕ) → v ≡ add_task h s req_id buf buf_size → Step h s v
  opens : (n : ℕ) → s.opening ≡ suc n → v ≡ release (record s { opening = n }) → Step h s v
  arms :
      (n : ℕ)
      → s.arming ≡ suc n
      → v ≡ record s { channel = record (s.channel) { out_armed = true }; arming = n }
      → Step h s v
  fires :
      s.channel.out_armed ≡ true
      → v ≡ record s { channel = record (s.channel) { out_armed = false }; events = suc s.events }
      → Step h s v
  fires_again : s.channel.out_armed ≡ true → v ≡ record s { events = suc s.events } → Step h s v
  arms_fails : (n : ℕ) → s.arming ≡ suc n → v ≡ record s { arming = n; lost = true } → Step h s v
  handles :
      (n : ℕ) (err rdhup writable : Bool)
      → s.events ≡ suc n
      → v ≡ dispatch s n (write_event err rdhup writable)
      → Step h s v
  finishes : (n : ℕ) → s.running ≡ suc n → v ≡ drop_task s n → Step h s v
  yields : (n : ℕ) → s.running ≡ suc n → v ≡ release (record s { running = n }) → Step h s v
  stops : (n : ℕ) → s.running ≡ suc n → v ≡ record s { running = n; stopped = true } → Step h s v

pub data Reach (h : AcmHandle) (s : Shared) : Shared → Type 0 where
  here : Reach h s s
  next : {v u : Shared} → Reach h s v → Step h v u → Reach h s u
