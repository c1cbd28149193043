-- ===== src/Acm/Connect/Fresh.antt =====
-- The state in which acm_connect leaves a channel, and the threads that the event loop starts for it.
use mw_race_service_mesh_c.Base.{
  ◌≤◌, ◌≡◌, refl, inl, inr, Bool, true, false, not, ◌&&◌, ◌||◌, some, [], arith, if◌then◌else◌,
  true≢false, Bool-cases, length,
}
use mw_race_service_mesh_c.Acm.Types.{AcmHandle, AcmChannel, msg_head_size}
use mw_race_service_mesh_c.Acm.Write.Queue.{tasks}
use mw_race_service_mesh_c.Acm.Write.History.{InOrder}
use mw_race_service_mesh_c.Acm.Read.Frames.{partial, IsReader}
use mw_race_service_mesh_c.Acm.Connect.{
  Made, made, null, undefined, ConnectCalls, Memory, new_channel, connect, Event, Dispatch,
  handle_event,
}

-- A run of acm_connect that gives a channel gives one that is ready: its queue is empty and fits its
-- memory, nothing is received, and no consumer can start before a request.
pub record IsFresh (h : AcmHandle) (c : AcmChannel) : Type 0 where
  pub in_order : InOrder (record { handle = h; channel = c; wire = []; asked = [] })
  pub empty : tasks h c ≡ []
  pub reader : IsReader c
  pub received : partial c ≡ []
  pub locked : c.consume_locked ≡ true

pub new_channel-IsFresh :
    (h : AcmHandle) (m : Memory)
    → h.max_write_queue_len ≤ length m.tasks
    → length m.head ≡ msg_head_size
    → IsFresh h (new_channel m)
new_channel-IsFresh h m queue head = record {
  in_order = record {
    queue = record { storage = queue; ordered = omega arith; bounded = omega arith };
    valid = tt;
    stream = refl;
  };
  empty = refl;
  reader = record {
    head_array = head;
    in_head = λ _. omega arith;
    head_parsed = λ e. absurd (true≢false e);
    in_data = λ e. absurd (true≢false e);
  };
  received = refl;
  locked = refl;
}

-- The outcomes of acm_connect on a handle.
pub data Connected (calls : ConnectCalls) (h : AcmHandle) : Made AcmChannel → Type 0 where
  fails : Connected calls h null
  fresh : (c : AcmChannel) → IsFresh h c → Connected calls h (made c)
  uses_null : calls.connect_ok ≡ true → calls.channel_ok ≡ false → Connected calls h undefined

-- With memory for a queue and a head, acm_connect fails, or gives a channel whose queue is empty and
-- fits its memory, that has received nothing, and that no consumer can start on before a request; the
-- one other outcome is a use of NULL, when there is no memory for the channel.
pub connect-Connected :
    (calls : ConnectCalls) (m : Memory) (h : AcmHandle)
    → h.max_write_queue_len ≤ length m.tasks
    → length m.head ≡ msg_head_size
    → Connected calls h (connect calls m (some h))
unfolding connect
connect-Connected calls m h queue head = elim (Bool-cases calls.connect_ok) [
  | inr no_link ↦ rw no_link fails
  | inl link ↦ elim (Bool-cases calls.channel_ok) [
    | inr no_memory ↦ rw (link, no_memory) (uses_null refl refl)
    | inl memory ↦
        elim (Bool-cases (calls.write_queue_ok && (calls.add_read_ok && calls.add_write_ok))) [
          | inr refused ↦ rw (link, memory, refused) fails
          | inl ok ↦
              rw (link, memory, ok) (fresh (new_channel m) (new_channel-IsFresh h m queue head))
        ]
  ]
]

-- An io thread is started for a channel only when its lock was free, and then the lock is taken; an
-- event of an error or of a closed peer starts none.
pub record Exclusive (c : AcmChannel) (e : Event) (d : Dispatch) : Type 0 where
  pub reads : (d.starts_read && c.reading_locked) ≡ false
  pub writes : (d.starts_write && c.consume_locked) ≡ false
  pub read_lock : d.channel.reading_locked ≡ (d.starts_read || c.reading_locked)
  pub write_lock : d.channel.consume_locked ≡ (d.starts_write || c.consume_locked)
  pub quiet : ((e.err || e.rdhup) && (d.starts_read || d.starts_write)) ≡ false

and_not : (a b : Bool) → ((a && not b) && b) ≡ false
and_not true true = refl
and_not true false = refl
and_not false b = refl

if_or : (a b : Bool) → (if a then true else b) ≡ (a || b)
if_or true b = refl
if_or false b = refl

by_flags :
    (c : AcmChannel) (err rdhup readable writable : Bool)
    → let e : Event = record {
      err = err;
      rdhup = rdhup;
      readable = readable;
      writable = writable;
    } in
      Exclusive c e (handle_event c e)
unfolding handle_event
by_flags c true rdhup readable writable = record {
  reads = refl;
  writes = refl;
  read_lock = refl;
  write_lock = refl;
  quiet = refl;
}
by_flags c false true readable writable = record {
  reads = refl;
  writes = refl;
  read_lock = refl;
  write_lock = refl;
  quiet = refl;
}
by_flags c false false readable writable = record {
  reads = and_not readable c.reading_locked;
  writes = and_not writable c.consume_locked;
  read_lock = if_or (readable && not c.reading_locked) c.reading_locked;
  write_lock = if_or (writable && not c.consume_locked) c.consume_locked;
  quiet = refl;
}

-- The event loop starts a read or write thread on a channel only when that lock was free, takes the
-- lock with it, and starts none on an error or when the peer has closed.
pub handle_event-Exclusive : (c : AcmChannel) (e : Event) → Exclusive c e (handle_event c e)
handle_event-Exclusive c e = by_flags c e.err e.rdhup e.readable e.writable
