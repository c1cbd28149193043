-- ===== src/Acm/Write/Stream.antt =====
-- The bytes that acm_io_write_thread puts on the wire, whatever the socket takes at a time.
use mw_race_service_mesh_c.Base.{
  ℕ, suc, ◌+◌, ◌-◌, ◌≤◌, ◌<◌, ◌≡◌, ◌≢◌, refl, sym, ap, ◌∙◌, ◌⊎◌, inl, inr, List, [], ◌∷◌, ◌++◌,
  append_assoc, arith, tests, ltb, ◌==◌, Bool-cases, All, length, length-set, take, drop, min,
  length-append, length-take,
}
use mw_race_service_mesh_c.Base.Segments.{
  take-append-drop_at, take-drop_append, drop-append_past, take-drop-take, drop_all,
}
use mw_race_service_mesh_c.Acm.Types.{AcmHandle, AcmWriteTask, AcmChannel, msg_head_size}
use mw_race_service_mesh_c.Acm.Write.{
  SendResult, sent, again, failed, head_bytes, Next, go_on, break_loop, drained, error, Round,
  round, slot, task_of, put_index, write_head, write_data, write_step,
}
use mw_race_service_mesh_c.Acm.Write.Queue.{
  tasks, later_tasks, IsQueue, tasks-cons, tasks-put_index, tasks-suc_head, later_tasks-put_index,
}

-- A message on the wire: twelve bytes of head, then the payload.
abbrev pub frame : AcmWriteTask → List ℕ
frame t = head_bytes t.head ++ take t.head.data_size t.content

pub length-head_bytes : (t : AcmWriteTask) → length (head_bytes t.head) ≡ msg_head_size
unfolding head_bytes
length-head_bytes t = refl

-- A task has its payload at hand, and its index lies in its frame.
pub record IsTask (t : AcmWriteTask) : Type 0 where
  pub payload : t.head.data_size ≤ length t.content
  pub index : t.write_index ≤ msg_head_size + t.head.data_size

-- What is still to be sent of the tasks of a queue.
abbrev pub unsent : List AcmWriteTask → List ℕ
unsent [] = []
unsent (t ∷ ts) = drop t.write_index (frame t) ++ unsent ts

-- Bytes taken from the head of a frame.
head_part :
    (t : AcmWriteTask) (n : ℕ) (rest : List ℕ)
    → t.write_index + n ≤ msg_head_size
    → take n (drop t.write_index (head_bytes t.head))
        ++ (drop (t.write_index + n) (frame t) ++ rest)
      ≡ drop t.write_index (frame t) ++ rest
head_part t n rest h =
    sym (append_assoc (take n (drop t.write_index (head_bytes t.head))) _ rest)
    ∙ ap (λ xs. xs ++ rest)
        (rw
          (← take-drop_append t.write_index n (head_bytes t.head) (take t.head.data_size t.content)
            (omega (arith, length-head_bytes t)))
          (take-append-drop_at t.write_index n (t.write_index + n) (frame t) refl))

-- Bytes taken from its payload.
data_part :
    (t : AcmWriteTask) (n : ℕ) (rest : List ℕ)
    → msg_head_size ≤ t.write_index
    → t.write_index + n ≤ t.head.data_size + msg_head_size
    → take n (drop (t.write_index - msg_head_size) t.content)
        ++ (drop (t.write_index + n) (frame t) ++ rest)
      ≡ drop t.write_index (frame t) ++ rest
data_part t n rest lo hi =
    sym (append_assoc (take n (drop (t.write_index - msg_head_size) t.content)) _ rest)
    ∙ ap (λ xs. xs ++ rest)
        (rw
          (
            drop-append_past (t.write_index + n) (t.write_index - msg_head_size + n)
                (head_bytes t.head) (take t.head.data_size t.content)
                (omega (arith, length-head_bytes t)),
            drop-append_past t.write_index (t.write_index - msg_head_size) (head_bytes t.head)
                (take t.head.data_size t.content) (omega (arith, length-head_bytes t)),
            ← take-drop-take (t.write_index - msg_head_size) n t.head.data_size t.content
                (omega arith),
          )
          (take-append-drop_at (t.write_index - msg_head_size) n _ (take t.head.data_size t.content)
            refl))

-- Nothing is left of a frame that was sent to its end.
frame_done :
    (t : AcmWriteTask) (i : ℕ)
    → IsTask t
    → t.head.data_size + msg_head_size ≤ i
    → drop i (frame t) ≡ []
frame_done t i v h = drop_all i (frame t) (
    omega (
      arith,
      length-append (head_bytes t.head) (take t.head.data_size t.content),
      length-head_bytes t,
      length-take t.head.data_size t.content,
    ))

-- A round keeps the queue and its tasks in order, and what it sends is what it takes off.
pub record Conserves (h : AcmHandle) (c : AcmChannel) (s : Round) : Type 0 where
  pub stream : s.output ++ unsent (tasks h s.channel) ≡ unsent (tasks h c)
  pub queue : IsQueue h s.channel
  pub valid : All IsTask (tasks h s.channel)

module _ (h : AcmHandle) (c : AcmChannel) (q : IsQueue h c)
    (ne : c.write_queue_head + 1 < c.write_queue_tail) (v : All IsTask (tasks h c)) where
  first_valid : All IsTask (task_of h c ∷ later_tasks h c)
  first_valid = rw (tasks-cons h c ne) at v

  IsQueue-put_index : (i : ℕ) → IsQueue h (put_index h c i)
  IsQueue-put_index i = record {
    storage = omega (
      arith,
      length-set c.write_queue (slot h c) (record (task_of h c) { write_index = i }),
      q.storage,
    );
    ordered = q.ordered;
    bounded = q.bounded;
  }

  -- A new index within the frame of the first task, and the bytes up to it sent.
  advance :
      (n : ℕ) (out : List ℕ) (next : Next)
      → (task_of h c).write_index + n ≤ msg_head_size + (task_of h c).head.data_size
      → out
          ++ (drop ((task_of h c).write_index + n) (frame (task_of h c))
              ++ unsent (later_tasks h c))
        ≡ drop (task_of h c).write_index (frame (task_of h c)) ++ unsent (later_tasks h c)
      → Conserves h c (round (put_index h c ((task_of h c).write_index + n)) out next)
  advance n out next le e = record {
    stream = rw (tasks-put_index h c _ q ne, tasks-cons h c ne) e;
    queue = IsQueue-put_index _;
    valid =
        rw (tasks-put_index h c _ q ne)
          (record { payload = first_valid.0.payload; index = le }, first_valid.1);
  }

  -- The same where the frame is sent to its end, and the task dropped.
  drop_task :
      (n : ℕ) (out : List ℕ) (next : Next)
      → (task_of h c).head.data_size + msg_head_size ≤ (task_of h c).write_index + n
      → out
          ++ (drop ((task_of h c).write_index + n) (frame (task_of h c))
              ++ unsent (later_tasks h c))
        ≡ drop (task_of h c).write_index (frame (task_of h c)) ++ unsent (later_tasks h c)
      → Conserves h c (
          round
            (record (put_index h c ((task_of h c).write_index + n)) {
              write_queue_head = suc c.write_queue_head;
            })
            out
            next)
  drop_task n out next ge e =
      let left = tasks-suc_head h (put_index h c ((task_of h c).write_index + n)) in
      let same = later_tasks-put_index h c ((task_of h c).write_index + n) q ne in
      record {
        stream =
            rw (left, same, tasks-cons h c ne)
              (rw (frame_done (task_of h c) _ first_valid.0 ge) at e);
        queue = record {
          storage = (IsQueue-put_index _).storage;
          ordered = ne_suc;
          bounded = omega (arith, q.bounded);
        };
        valid = rw (left, same) first_valid.1;
      }
    where
      ne_suc : suc c.write_queue_head < c.write_queue_tail
      ne_suc = omega arith

  write_head-Conserves :
      (k : ℕ) → (task_of h c).write_index < msg_head_size → Conserves h c (write_head h c (sent k))
  unfolding write_head
  write_head-Conserves k lt = elim (Bool-cases (ltb (i + n) msg_head_size)) [
    | inl e ↦ rw e (step break_loop)
    | inr e ↦ rw e (step go_on)
  ]
    where
      i : ℕ
      i = (task_of h c).write_index

      n : ℕ
      n = min k (msg_head_size - i)

      step :
          (next : Next)
          → Conserves h c
              (round (put_index h c (i + n)) (take n (drop i (head_bytes (task_of h c).head))) next)
      step next =
          advance n _ next (omega arith)
            (head_part (task_of h c) n (unsent (later_tasks h c)) (omega arith))

  write_data-Conserves :
      (k : ℕ) → msg_head_size ≤ (task_of h c).write_index → Conserves h c (write_data h c (sent k))
  unfolding write_data
  write_data-Conserves k ge = elim (Bool-cases (ltb (i + n) (size + msg_head_size))) [
    | inl e ↦ rw e (advance n _ break_loop (omega (arith, first_valid.0.index)) part)
    | inr e ↦ rw e (elim (Bool-cases (suc c.write_queue_head + 1 == c.write_queue_tail)) [
      | inl e' ↦ rw e' (drop_task n _ drained (omega (tests, e, first_valid.0.index)) part)
      | inr e' ↦ rw e' (drop_task n _ go_on (omega (tests, e, first_valid.0.index)) part)
    ])
  ]
    where
      i : ℕ
      i = (task_of h c).write_index

      size : ℕ
      size = (task_of h c).head.data_size

      n : ℕ
      n = min k (size + msg_head_size - i)

      part :
          take n (drop (i - msg_head_size) (task_of h c).content)
            ++ (drop (i + n) (frame (task_of h c)) ++ unsent (later_tasks h c))
          ≡ drop i (frame (task_of h c)) ++ unsent (later_tasks h c)
      part =
          data_part (task_of h c) n (unsent (later_tasks h c)) ge
            (omega (arith, first_valid.0.index))

  unchanged : (next : Next) → Conserves h c (round c [] next)
  unchanged next = record { stream = refl; queue = q; valid = v }

  -- On a queue that is not empty, a round with any result of `send` other than EAGAIN in the
  -- middle of a payload sends exactly the bytes that it takes off what the queue has to send.
  pub write_step-Conserves :
      (r : SendResult)
      → (r ≢ again) ⊎ ((task_of h c).write_index < msg_head_size)
      → Conserves h c (write_step h c r)
  unfolding write_step
  write_step-Conserves r ok = elim (Bool-cases (ltb (task_of h c).write_index msg_head_size)) [
    | inl e ↦ rw e (in_head r (omega (tests, e)))
    | inr e ↦ rw e (in_data r (omega (tests, e)) ok)
  ]
    where
      in_head :
          (r : SendResult)
          → (task_of h c).write_index < msg_head_size
          → Conserves h c (write_head h c r)
      in_head (sent k) lt = write_head-Conserves k lt
      in_head again lt = unfold write_head in unchanged break_loop
      in_head failed lt = unfold write_head in unchanged error

      in_data :
          (r : SendResult)
          → msg_head_size ≤ (task_of h c).write_index
          → (r ≢ again) ⊎ ((task_of h c).write_index < msg_head_size)
          → Conserves h c (write_data h c r)
      in_data (sent k) ge ok = write_data-Conserves k ge
      in_data failed ge ok = unfold write_data in unchanged error
      in_data again ge (inl ne) = absurd (ne refl)
      in_data again ge (inr lt) = absurd (omega arith)
