-- ===== src/ThreadPool/Tests.antt =====
-- Concrete runs of the thread pool.
use mw_race_service_mesh_c.Base.{◌+◌, ◌≤◌, ◌≡◌, refl, some, [], ◌∷◌, arith}
use mw_race_service_mesh_c.Base.Int.{pos}
use mw_race_service_mesh_c.ThreadPool.{
  TdplCallNode, Tdpl, init_pool, call_func, enqueue, post, wait_call, claim_call, take_call,
}
use mw_race_service_mesh_c.ThreadPool.Schedule.{
  World, reading, started, Always, HasRoom, Reach, here, next, enqueues, posts, wakes, claims_place,
  reads, fresh, calls, waiting,
}
use mw_race_service_mesh_c.ThreadPool.Schedule.Order.{Matches, calls_in_order}
use mw_race_service_mesh_c.ThreadPool.Full.{call_func-accepts, call_func-overwrites}

abbrev call : TdplCallNode
call = record { arg = 7; call_func = 3 }

abbrev world1 : World
world1 = record (fresh 2 2) {
  pool = (enqueue (fresh 2 2).pool call).1;
  unposted = 1;
  taken_in = call ∷ [];
}

abbrev world2 : World
world2 = record world1 { pool = post world1.pool; unposted = 0 }

abbrev world3 : World
world3 = record world2 { pool = record world2.pool { call_wait_n = 0 }; awake = 1 }

-- A worker has taken its place.
abbrev world4 : World
world4 = record world3 { pool = (claim_call world3.pool).1; awake = 0; claims = reading 1 ∷ [] }

-- Another call is taken in before it reads its slot.
abbrev world5 : World
world5 = record world4 {
  pool = (enqueue world4.pool call).1;
  unposted = 1;
  taken_in = call ∷ call ∷ [];
}

abbrev world6 : World
world6 = record world5 { claims = started call ∷ [] }

six_steps : Reach HasRoom (fresh 2 2) world6
unfolding init_pool enqueue wait_call claim_call
six_steps =
    next
      (next
        (next
          (next (next (next here (enqueues call (omega arith) refl)) (posts 0 refl refl))
            (wakes world3.pool refl refl))
          (claims_place 0 refl refl))
        (enqueues call (omega arith) refl))
      (reads 0 1 refl refl)

calls_in_order_example :
    Matches world6.claims (calls world6.pool) world6.taken_in
    × (world6.pool.call_wait_n + world6.awake ≤ waiting world6.pool)
calls_in_order_example = calls_in_order 2 2 six_steps

-- Two calls in a queue of one slot.
abbrev over1 : World
over1 = record (fresh 2 0) {
  pool = (enqueue (fresh 2 0).pool call).1;
  unposted = 1;
  taken_in = call ∷ [];
}

abbrev over2 : World
over2 = record over1 {
  pool = (enqueue over1.pool call).1;
  unposted = 2;
  taken_in = call ∷ call ∷ [];
}

over_full : Reach Always (fresh 2 0) over2
unfolding init_pool enqueue
over_full = next (next here (enqueues call tt refl)) (enqueues call tt refl)

call_func-accepts_example : (call_func over2.pool (some 4) 9).0 ≡ pos 1
call_func-accepts_example = call_func-accepts 2 0 4 9 over_full

-- A pool of one slot more than one, with two calls that wait.
abbrev full_pool : Tdpl
full_pool = record {
  thread_num = 1;
  max_wait_n = 1;
  avali_queue = [];
  avali_queue_period = 2;
  avali_queue_head = 0;
  avali_queue_tail = 1;
  call_queue = call ∷ call ∷ [];
  call_queue_period = 2;
  call_queue_head = 0;
  call_queue_tail = 3;
  ready_n = 0;
  call_wait_n = 2;
}

call_func-overwrites_example :
    (take_call (call_func full_pool (some 4) 9).1).0 ≡ record { arg = 9; call_func = 4 }
call_func-overwrites_example =
    call_func-overwrites full_pool 4 9 (omega arith) (omega arith) (omega arith) refl
