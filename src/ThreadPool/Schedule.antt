-- ===== src/ThreadPool/Schedule.antt =====
-- The pool under any schedule of callers and workers.
pub mod Counted
pub mod Order
use mw_race_service_mesh_c.Base.{
  ℕ, suc, ◌+◌, ◌-◌, ◌%◌, ◌<◌, ◌≡◌, some, List, [], ◌∷◌, ◌++◌, get_elem?, set,
}
use mw_race_service_mesh_c.Base.Slots.{window}
use mw_race_service_mesh_c.ThreadPool.{
  TdplCallNode, Tdpl, no_call, init_pool, enqueue, post, wait_call, claim_call, read_slot,
}

-- A place in the queue that a worker has taken: it has still to read the slot of that place, or it has
-- read the call that it starts.
pub data Claim : Type 0 where
  reading : ℕ → Claim
  started : TdplCallNode → Claim

-- A pool with its past: the calls that it took in, and the places that workers took, each in order.
-- `unposted` callers are between their enqueue and their `sem_post`, `awake` workers between `sem_wait`
-- and the increment of the head.
pub record World : Type 0 where
  pub pool : Tdpl
  pub unposted : ℕ
  pub awake : ℕ
  pub taken_in : List TdplCallNode
  pub claims : List Claim

abbrev pub waiting : Tdpl → ℕ
waiting p = p.call_queue_tail - (suc p.call_queue_head)

abbrev pub calls : Tdpl → List TdplCallNode
calls p = window no_call p.call_queue_period p.call_queue (suc p.call_queue_head) (waiting p)

-- The oldest place that is not read, when the claims start at place `i`.
abbrev pub oldest : ℕ → List Claim → ℕ
oldest i [] = i
oldest i (reading n ∷ cs) = i
oldest i (started c ∷ cs) = oldest (suc i) cs

-- The places from the oldest one that is not read on are fewer than a period.
abbrev pub HasRoom : World → Type 0
HasRoom w = w.pool.call_queue_tail < oldest 1 w.claims + w.pool.call_queue_period

-- Each step is one critical section or one atomic operation. A worker reads its slot in a step of its
-- own: its place counts as not read until both fields of the slot are. `Allows` restricts the worlds in
-- which a call is taken in.
pub data Step (Allows : World → Type 0) (w v : World) : Type 0 where
  enqueues :
      (node : TdplCallNode)
      → Allows w
      → v ≡ record w {
        pool = (enqueue w.pool node).1;
        unposted = suc w.unposted;
        taken_in = w.taken_in ++ (node ∷ []);
      }
      → Step Allows w v
  posts :
      (n : ℕ)
      → w.unposted ≡ suc n
      → v ≡ record w { pool = post w.pool; unposted = n }
      → Step Allows w v
  wakes :
      (p : Tdpl)
      → wait_call w.pool ≡ some p
      → v ≡ record w { pool = p; awake = suc w.awake }
      → Step Allows w v
  claims_place :
      (n : ℕ)
      → w.awake ≡ suc n
      → v ≡ record w {
        pool = (claim_call w.pool).1;
        awake = n;
        claims = w.claims ++ (reading (claim_call w.pool).0 ∷ []);
      }
      → Step Allows w v
  reads :
      (k n : ℕ)
      → get_elem? w.claims k ≡ some (reading n)
      → v ≡ record w { claims = set w.claims k (started (read_slot w.pool n)) }
      → Step Allows w v

pub data Reach (Allows : World → Type 0) (w : World) : World → Type 0 where
  here : Reach Allows w w
  next : {v u : World} → Reach Allows w v → Step Allows v u → Reach Allows w u

-- No restriction.
abbrev pub Always : World → Type 0
Always w = Unit

abbrev pub fresh : ℕ → ℕ → World
fresh threads max_wait = record {
  pool = init_pool threads max_wait;
  unposted = 0;
  awake = 0;
  taken_in = [];
  claims = [];
}
