-- ===== src/ThreadPool.antt =====
-- src/main/c/src/com/tdpool.c: a pool of worker threads that take calls from a queue.
-- The queue is an array with two counters that only grow; a semaphore counts the calls in it.
pub mod Schedule
pub mod Full
mod Tests
use mw_race_service_mesh_c.Base.{
  ℕ, zero, suc, ◌+◌, ◌-◌, ◌%◌, Bool, true, false, Option, none, some, List, [], ◌∷◌, ◌==◌, ltb,
  if◌then◌else◌, get_or, set, replicate,
}
use mw_race_service_mesh_c.Base.Int.{ℤ, pos, negsuc, eqb_ℤ}

-- `struct tdpl_call_node`; a function pointer and a `void *` are numbers.
pub record TdplCallNode : Type 0 where
  pub arg : ℕ
  pub call_func : ℕ

-- `struct tdpl_s`: a semaphore is its value.
pub record Tdpl : Type 0 where
  pub thread_num : ℕ
  pub max_wait_n : ℕ
  pub avali_queue : List ℕ
  pub avali_queue_period : ℕ
  pub avali_queue_head : ℕ
  pub avali_queue_tail : ℕ
  pub call_queue : List TdplCallNode
  pub call_queue_period : ℕ
  pub call_queue_head : ℕ
  pub call_queue_tail : ℕ
  pub ready_n : ℕ
  pub call_wait_n : ℕ

-- What a slot holds before its first call; it is never read.
abbrev pub no_call : TdplCallNode
no_call = record { arg = 0; call_func = 0 }

-- What a run of tdpl_create comes to: NULL, a wait for workers that never report, or a pool.
pub data Created : Type 0 where
  null : Created
  hangs : Created
  pool : Tdpl → Created

-- The pool before its workers are started.
unfoldable pub init_pool : ℕ → ℕ → Tdpl
init_pool thread_num max_wait_n = record {
  thread_num = thread_num;
  max_wait_n = max_wait_n;
  avali_queue = replicate (thread_num + 1) 0;
  avali_queue_period = thread_num + 1;
  avali_queue_head = 0;
  avali_queue_tail = 1;
  call_queue = replicate (max_wait_n + 1) no_call;
  call_queue_period = max_wait_n + 1;
  call_queue_head = 0;
  call_queue_tail = 1;
  ready_n = 0;
  call_wait_n = 0;
}

-- The thread handle `i` goes to the next slot of the queue of free threads.
abbrev add_thread : Tdpl → ℕ → Tdpl
add_thread p i = record p {
  avali_queue = set p.avali_queue (p.avali_queue_tail % p.avali_queue_period) i;
  avali_queue_tail = suc p.avali_queue_tail;
}

-- `for (i = 0; i < thread_num; i++)` over the results of pthread_create, of which a missing one
-- counts as 0. A thread that was started posts `ready_n`. `none` is the jump to `err4_ret`.
unfoldable pub start_workers : ℕ → ℕ → List ℤ → Tdpl → Option Tdpl
start_workers zero i codes p = some p
start_workers (suc n) i [] p =
    let p1 = add_thread p i in start_workers n (suc i) [] (record p1 { ready_n = suc p1.ready_n })
start_workers (suc n) i (code ∷ codes) p =
    let p1 = add_thread p i in
    let started = record p1 {
      ready_n = if eqb_ℤ code (pos 0) then suc p1.ready_n else p1.ready_n;
    } in
    let rest = start_workers n (suc i) codes started in if eqb_ℤ code (negsuc 0) then none else rest

-- `for (i = 0; i < thread_num; i++) sem_wait(&ready_n);`
abbrev await_workers : Option Tdpl → Created
await_workers none = null
await_workers (some p) =
    if ltb p.ready_n p.thread_num
    then hangs
    else pool (record p { ready_n = p.ready_n - p.thread_num })

-- tdpl_create, with the outcomes of its two checked calls of malloc and of pthread_create.
unfoldable pub create : Bool → Bool → List ℤ → ℕ → ℕ → Created
unfolding init_pool start_workers
create ok_pool ok_handles codes thread_num max_wait_n =
    if ok_pool
    then (if ok_handles
        then await_workers (start_workers thread_num 0 codes (init_pool thread_num max_wait_n))
        else null)
    else null

-- The part of tdpl_call_func under the write lock.
unfoldable pub enqueue : Tdpl → TdplCallNode → ℤ × Tdpl
enqueue p node = if p.call_queue_head == p.call_queue_tail then (negsuc 1, p) else (
  pos 1,
  record p {
    call_queue = set p.call_queue (p.call_queue_tail % p.call_queue_period) node;
    call_queue_tail = suc p.call_queue_tail;
  },
)

abbrev pub post : Tdpl → Tdpl
post p = record p { call_wait_n = suc p.call_wait_n }

abbrev posted : ℤ × Tdpl → ℤ × Tdpl
posted (pos n, p) = (pos n, post p)
posted (negsuc n, p) = (negsuc n, p)

-- tdpl_call_func; a NULL function is `none`.
unfoldable pub call_func : Tdpl → Option ℕ → ℕ → ℤ × Tdpl
unfolding enqueue
call_func p none arg = (negsuc 0, p)
call_func p (some f) arg = posted (enqueue p (record { arg = arg; call_func = f }))

-- One round of tdpl_worker_thread: `sem_wait`, the atomic increment of the head, which gives the worker
-- its place in the queue, and the reads of its slot.
unfoldable pub wait_call : Tdpl → Option Tdpl
wait_call p =
    if p.call_wait_n == 0 then none else some (record p { call_wait_n = p.call_wait_n - 1 })

unfoldable pub claim_call : Tdpl → ℕ × Tdpl
claim_call p = (suc p.call_queue_head, record p { call_queue_head = suc p.call_queue_head })

abbrev pub read_slot : Tdpl → ℕ → TdplCallNode
read_slot p n = get_or p.call_queue (n % p.call_queue_period) no_call

-- Both without anything in between.
unfoldable pub take_call : Tdpl → TdplCallNode × Tdpl
unfolding claim_call
take_call p = let (n, p1) = claim_call p in (read_slot p1 n, p1)
