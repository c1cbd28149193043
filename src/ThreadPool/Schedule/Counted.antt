-- ===== src/ThreadPool/Schedule/Counted.antt =====
-- The queue of the pool has a call for each worker that is awake or can wake, whatever the schedule.
use mw_race_service_mesh_c.Base.{
  ℕ, suc, ◌+◌, ◌-◌, ◌%◌, ◌≤◌, ◌<◌, ◌≡◌, refl, sym, subst, inl, inr, Bool-cases, ◌==◌, ==_iff,
  none-ne-some, some-injective, not_zero, some, arith, length, set, length-set, length-replicate,
}
use mw_race_service_mesh_c.Base.Int.{pos}
use mw_race_service_mesh_c.ThreadPool.{
  TdplCallNode, Tdpl, no_call, init_pool, enqueue, wait_call, claim_call,
}
use mw_race_service_mesh_c.ThreadPool.Schedule.{
  World, Step, enqueues, posts, wakes, claims_place, reads, Reach, here, next, fresh,
}

-- There is a call in the queue for each post to come, each post made and each worker that is awake.
pub record Counted (p : Tdpl) (unposted awake : ℕ) : Type 0 where
  pub storage : p.call_queue_period ≤ length p.call_queue
  pub counted : p.call_queue_head + 1 + unposted + p.call_wait_n + awake ≡ p.call_queue_tail

abbrev pub IsCounted : World → Type 0
IsCounted w = Counted w.pool w.unposted w.awake

fresh-IsCounted : (threads max_wait : ℕ) → IsCounted (fresh threads max_wait)
unfolding init_pool
fresh-IsCounted threads max_wait = record {
  storage = omega (arith, length-replicate (max_wait + 1) no_call);
  counted = omega arith;
}

abbrev pub joined : Tdpl → TdplCallNode → Tdpl
joined p node = record p {
  call_queue = set p.call_queue (p.call_queue_tail % p.call_queue_period) node;
  call_queue_tail = suc p.call_queue_tail;
}

-- The test for a full queue fails whenever the head is behind the tail.
pub enqueue-joined :
    (p : Tdpl) (node : TdplCallNode)
    → p.call_queue_head < p.call_queue_tail
    → enqueue p node ≡ (pos 1, joined p node)
unfolding enqueue
enqueue-joined p node lt = elim (Bool-cases (p.call_queue_head == p.call_queue_tail)) [
  | inl e ↦ absurd (omega (arith, (==_iff p.call_queue_head p.call_queue_tail).0 e))
  | inr e ↦ rw e refl
]

pub wait_call-taken :
    (p q : Tdpl)
    → wait_call p ≡ some q
    → (n : ℕ) × (p.call_wait_n ≡ suc n) × (q ≡ record p { call_wait_n = n })
unfolding wait_call
wait_call-taken p q e = elim (Bool-cases (p.call_wait_n == 0)) [
  | inl z ↦ absurd (none-ne-some q (rw z at e))
  | inr z ↦ (p.call_wait_n - 1, not_zero p.call_wait_n z, sym (some-injective _ _ (rw z at e)))
]

module _ {Allows : World → Type 0} where
  pub Step-IsCounted : (w v : World) → Step Allows w v → IsCounted w → IsCounted v
  unfolding claim_call
  Step-IsCounted w v (enqueues node allowed e) i =
      let done = enqueue-joined w.pool node (omega (arith, i.counted)) in
      let q = w.pool.call_queue in
      let at = w.pool.call_queue_tail % w.pool.call_queue_period in
      subst IsCounted (sym e) (
        subst (λ p. Counted p.1 (suc w.unposted) w.awake) (sym done)
          (record {
            storage = omega (arith, i.storage, length-set q at node);
            counted = omega (arith, i.counted);
          }))
  Step-IsCounted w v (posts n some_left e) i =
      subst IsCounted (sym e)
        (record { storage = i.storage; counted = omega (arith, i.counted, some_left) })
  Step-IsCounted w v (wakes p taken e) i =
      let (n, some_posts, p_is) = wait_call-taken w.pool p taken in
      subst IsCounted (sym e) (
        subst (λ q. Counted q w.unposted (suc w.awake)) (sym p_is)
          (record { storage = i.storage; counted = omega (arith, i.counted, some_posts) }))
  Step-IsCounted w v (claims_place n some_awake e) i =
      subst IsCounted (sym e)
        (record { storage = i.storage; counted = omega (arith, i.counted, some_awake) })
  Step-IsCounted w v (reads k n at e) i = subst IsCounted (sym e) i

  Reach-IsCounted : (w : World) {v : World} → IsCounted w → Reach Allows w v → IsCounted v
  Reach-IsCounted w i here = i
  Reach-IsCounted w i (next {v} {u} r s) = Step-IsCounted v u s (Reach-IsCounted w i r)

  pub fresh_Reach-IsCounted :
      (threads max_wait : ℕ) {w : World} → Reach Allows (fresh threads max_wait) w → IsCounted w
  fresh_Reach-IsCounted threads max_wait r =
      Reach-IsCounted (fresh threads max_wait) (fresh-IsCounted threads max_wait) r
