-- ===== src/ThreadPool/Full.antt =====
-- The test for a full queue in tdpl_call_func.
use mw_race_service_mesh_c.Base.{
  ℕ, suc, ◌+◌, ◌%◌, ◌≤◌, ◌<◌, ◌≡◌, refl, sym, ap, ◌∙◌, some, arith, length, get_or-set_self, set,
  get_or, subst,
}
use mw_race_service_mesh_c.Base.Int.{pos}
use mw_race_service_mesh_c.ThreadPool.{
  Tdpl, TdplCallNode, no_call, call_func, enqueue, claim_call, take_call, post,
}
use mw_race_service_mesh_c.ThreadPool.Schedule.{World, Always, Reach, fresh, waiting}
use mw_race_service_mesh_c.ThreadPool.Schedule.Counted.{enqueue-joined, fresh_Reach-IsCounted}
use native.Mathlib.Nat.{mod-lt, add-mod_right}

call_func-joined :
    (p : Tdpl) (f arg : ℕ)
    → p.call_queue_head < p.call_queue_tail
    → call_func p (some f) arg ≡ (pos 1, post (enqueue p (record { arg = arg; call_func = f })).1)
unfolding call_func
call_func-joined p f arg lt = rw (enqueue-joined p (record { arg = arg; call_func = f }) lt) refl

-- Under any schedule of callers and workers from a new pool on, also one that has taken in more calls
-- than the queue has slots, a call of a function is accepted: the test for a full queue is never true.
pub call_func-accepts :
    (threads max_wait : ℕ) {w : World} (f arg : ℕ)
    → Reach Always (fresh threads max_wait) w
    → (call_func w.pool (some f) arg).0 ≡ pos 1
call_func-accepts threads max_wait {w} f arg r =
    let i = fresh_Reach-IsCounted threads max_wait r in
    ap (λ x. x.0) (call_func-joined w.pool f arg (omega (arith, i.counted)))

-- When a period of calls waits, the next call overwrites the oldest of them, which is never started:
-- the worker that takes the next call gets the new one.
pub call_func-overwrites :
    (p : Tdpl) (f arg : ℕ)
    → 0 < p.call_queue_period
    → p.call_queue_period ≤ length p.call_queue
    → p.call_queue_head < p.call_queue_tail
    → waiting p ≡ p.call_queue_period
    → (take_call (call_func p (some f) arg).1).0 ≡ record { arg = arg; call_func = f }
unfolding claim_call take_call
call_func-overwrites p f arg some_room st lt full =
    let node : TdplCallNode = record { arg = arg; call_func = f } in
    let L = p.call_queue_period in
    let h = suc p.call_queue_head in
    let at_end : p.call_queue_tail ≡ h + L = omega arith in
    let same : p.call_queue_tail % L ≡ h % L = ap (λ n. n % L) at_end ∙ add-mod_right h L in
    let done =
      call_func-joined p f arg lt ∙ ap (λ x. (pos 1, post x.1)) (enqueue-joined p node lt) in
    subst (λ x. (take_call x.1).0 ≡ node) (sym done)
      (subst (λ i. get_or (set p.call_queue i node) (h % L) no_call ≡ node) (sym same)
        (get_or-set_self p.call_queue (h % L) node no_call
          (omega (arith, mod-lt h {m = L} some_room))))
