-- ===== src/ThreadPool/Schedule/Order.antt =====
-- Calls are started in the order of the places that workers take, while the queue has room.
use mw_race_service_mesh_c.Base.{
  ℕ, zero, suc, ◌+◌, ◌-◌, ◌%◌, ◌≤◌, ◌<◌, ◌≡◌, refl, sym, ap, ◌∙◌, subst, some-injective, some, List,
  [], ◌∷◌, ◌++◌, arith, length, length-append, length-set, get_elem?, get_or, set, get_or-set_ne,
}
use mw_race_service_mesh_c.Base.Slots.{window, window-set_end, slot_ne}
use mw_race_service_mesh_c.ThreadPool.{
  TdplCallNode, Tdpl, no_call, init_pool, claim_call, read_slot,
}
use mw_race_service_mesh_c.ThreadPool.Schedule.{
  World, Claim, reading, started, waiting, calls, oldest, HasRoom, Step, enqueues, posts, wakes,
  claims_place, reads, Reach, here, next, fresh,
}
use mw_race_service_mesh_c.ThreadPool.Schedule.Counted.{
  IsCounted, joined, enqueue-joined, wait_call-taken, fresh_Reach-IsCounted,
}

-- The calls that were taken in are, in order, those of the places that workers took, of which one that
-- is read is the call that was started, followed by those that wait.
abbrev pub Matches : List Claim → List TdplCallNode → List TdplCallNode → Type 0
Matches [] ws ts = ws ≡ ts
Matches (reading n ∷ cs) ws [] = ⊥
Matches (started c ∷ cs) ws [] = ⊥
Matches (reading n ∷ cs) ws (t ∷ ts) = Matches cs ws ts
Matches (started c ∷ cs) ws (t ∷ ts) = (c ≡ t) × Matches cs ws ts

module _ (L : ℕ) where
  -- The same for claims from place `i` on, of which those to be read have their call in their slot.
  abbrev Holds : List TdplCallNode → ℕ → List Claim → List TdplCallNode → List TdplCallNode → Type 0
  Holds q i [] ws ts = ws ≡ ts
  Holds q i (reading n ∷ cs) ws [] = ⊥
  Holds q i (started c ∷ cs) ws [] = ⊥
  Holds q i (reading n ∷ cs) ws (t ∷ ts) =
      (n ≡ i) × (get_or q (i % L) no_call ≡ t) × Holds q (suc i) cs ws ts
  Holds q i (started c ∷ cs) ws (t ∷ ts) = (c ≡ t) × Holds q (suc i) cs ws ts

  Holds-Matches :
      (q : List TdplCallNode) (i : ℕ) (cs : List Claim) (ws ts : List TdplCallNode)
      → Holds q i cs ws ts
      → Matches cs ws ts
  Holds-Matches q i [] ws ts h = h
  Holds-Matches q i (reading n ∷ cs) ws [] h = h
  Holds-Matches q i (started c ∷ cs) ws [] h = h
  Holds-Matches q i (reading n ∷ cs) ws (t ∷ ts) (_, _, h) = Holds-Matches q (suc i) cs ws ts h
  Holds-Matches q i (started c ∷ cs) ws (t ∷ ts) (e, h) = (e, Holds-Matches q (suc i) cs ws ts h)

  oldest-le : (i : ℕ) (cs : List Claim) → i ≤ oldest i cs
  oldest-le i [] = omega arith
  oldest-le i (reading n ∷ cs) = omega arith
  oldest-le i (started c ∷ cs) = omega (arith, oldest-le (suc i) cs)

  -- A write within a period of the oldest claim that is not read leaves the slots to be read alone.
  Holds-set :
      (q : List TdplCallNode) (j : ℕ) (x : TdplCallNode) (i : ℕ) (cs : List Claim)
      (ws ws' ts : List TdplCallNode)
      → i + length cs ≤ j
      → j < oldest i cs + L
      → ws' ≡ ws ++ (x ∷ [])
      → Holds q i cs ws ts
      → Holds (set q (j % L) x) i cs ws' (ts ++ (x ∷ []))
  Holds-set q j x i [] ws ws' ts le lt e h = e ∙ ap (λ l. l ++ (x ∷ [])) h
  Holds-set q j x i (reading n ∷ cs) ws ws' [] le lt e h = absurd h
  Holds-set q j x i (started c ∷ cs) ws ws' [] le lt e h = absurd h
  Holds-set q j x i (reading n ∷ cs) ws ws' (t ∷ ts) le lt e (at, slot, h) = (
    at,
    get_or-set_ne q x no_call (λ e'. slot_ne L i j (omega arith) (omega arith) (sym e')) ∙ slot,
    Holds-set q j x (suc i) cs ws ws' ts (omega arith) (omega (arith, oldest-le (suc i) cs)) e h,
  )
  Holds-set q j x i (started c ∷ cs) ws ws' (t ∷ ts) le lt e (same, h) =
      (same, Holds-set q j x (suc i) cs ws ws' ts (omega arith) lt e h)

  -- A worker takes the place of the first call that waits.
  Holds-claim :
      (q : List TdplCallNode) (i n : ℕ) (cs : List Claim) (ws ts : List TdplCallNode)
      → n ≡ i + length cs
      → Holds q i cs (get_or q (n % L) no_call ∷ ws) ts
      → Holds q i (cs ++ (reading n ∷ [])) ws ts
  Holds-claim q i n [] ws ts e h =
      let e' : n ≡ i = omega arith in
      subst (Holds q i (reading n ∷ []) ws) h
        (e', ap (λ m. get_or q (m % L) no_call) (sym e'), refl)
  Holds-claim q i n (reading m ∷ cs) ws [] e h = absurd h
  Holds-claim q i n (started c ∷ cs) ws [] e h = absurd h
  Holds-claim q i n (reading m ∷ cs) ws (t ∷ ts) e (at, slot, h) =
      (at, slot, Holds-claim q (suc i) n cs ws ts (omega arith) h)
  Holds-claim q i n (started c ∷ cs) ws (t ∷ ts) e (same, h) =
      (same, Holds-claim q (suc i) n cs ws ts (omega arith) h)

  -- A worker reads its slot.
  Holds-read :
      (q : List TdplCallNode) (i k n : ℕ) (cs : List Claim) (ws ts : List TdplCallNode)
      → get_elem? cs k ≡ some (reading n)
      → Holds q i cs ws ts
      → Holds q i (set cs k (started (get_or q (n % L) no_call))) ws ts
  Holds-read q i k n [] ws ts e h = h
  Holds-read q i k n (reading m ∷ cs) ws [] e h = absurd h
  Holds-read q i k n (started c ∷ cs) ws [] e h = absurd h
  Holds-read q i zero n (reading m ∷ cs) ws (t ∷ ts) e (at, slot, h) =
      let same : m ≡ n = ap place (some-injective _ _ e) in
      (ap (λ j. get_or q (j % L) no_call) (sym same ∙ at) ∙ slot, h)
    where
      place : Claim → ℕ
      place (reading j) = j
      place (started c) = 0
  Holds-read q i zero n (started c ∷ cs) ws (t ∷ ts) e (same, h) =
      absurd (subst is_started (some-injective _ _ e) tt)
    where
      is_started : Claim → Type 0
      is_started (reading j) = ⊥
      is_started (started c) = Unit
  Holds-read q i (suc k) n (reading m ∷ cs) ws (t ∷ ts) e (at, slot, h) =
      (at, slot, Holds-read q (suc i) k n cs ws ts e h)
  Holds-read q i (suc k) n (started c ∷ cs) ws (t ∷ ts) e (same, h) =
      (same, Holds-read q (suc i) k n cs ws ts e h)

-- A number of places is taken, and each of them holds what it must.
record InOrder (p : Tdpl) (claims : List Claim) (taken_in : List TdplCallNode) : Type 0 where
  claimed : length claims ≡ p.call_queue_head
  holds : Holds p.call_queue_period p.call_queue 1 claims (calls p) taken_in

abbrev IsInOrder : World → Type 0
IsInOrder w = InOrder w.pool w.claims w.taken_in

fresh-IsInOrder : (threads max_wait : ℕ) → IsInOrder (fresh threads max_wait)
unfolding init_pool
fresh-IsInOrder threads max_wait = record { claimed = refl; holds = refl }

oldest-bound : (i : ℕ) (cs : List Claim) → oldest i cs ≤ i + length cs
oldest-bound i [] = omega arith
oldest-bound i (reading n ∷ cs) = omega arith
oldest-bound i (started c ∷ cs) = omega (arith, oldest-bound (suc i) cs)

joined-calls :
    (p : Tdpl) (node : TdplCallNode)
    → p.call_queue_period ≤ length p.call_queue
    → p.call_queue_head < p.call_queue_tail
    → waiting p < p.call_queue_period
    → calls (joined p node) ≡ calls p ++ (node ∷ [])
joined-calls p node st lt room =
    let more : suc p.call_queue_tail - (suc p.call_queue_head) ≡ suc (waiting p) = omega arith in
    subst
      (λ n.
        window no_call p.call_queue_period (joined p node).call_queue (suc p.call_queue_head) n
        ≡ calls p ++ (node ∷ []))
      (sym more)
      (window-set_end no_call p.call_queue_period p.call_queue node (suc p.call_queue_head)
        (waiting p) p.call_queue_tail room st (omega arith))

joined-IsInOrder :
    (w : World) (node : TdplCallNode)
    → IsCounted w
    → HasRoom w
    → IsInOrder w
    → InOrder (joined w.pool node) w.claims (w.taken_in ++ (node ∷ []))
joined-IsInOrder w node n room i =
    let few : w.pool.call_queue_tail < suc w.pool.call_queue_head + w.pool.call_queue_period =
      omega (arith, room, i.claimed, oldest-bound 1 w.claims) in
    record {
      claimed = i.claimed;
      holds =
          Holds-set w.pool.call_queue_period w.pool.call_queue w.pool.call_queue_tail node 1
            w.claims (calls w.pool) (calls (joined w.pool node)) w.taken_in
            (omega (arith, n.counted, i.claimed)) room
            (joined-calls w.pool node n.storage (omega (arith, n.counted))
              (omega (arith, few, n.counted)))
            i.holds;
    }

-- The first call that waits, and those behind it.
calls-first :
    (p : Tdpl)
    → p.call_queue_head + 1 < p.call_queue_tail
    → calls p ≡ read_slot p (claim_call p).0 ∷ calls (claim_call p).1
unfolding claim_call
calls-first p lt =
    let fewer : waiting p ≡ suc (p.call_queue_tail - suc (suc p.call_queue_head)) = omega arith in
    ap (window no_call p.call_queue_period p.call_queue (suc p.call_queue_head)) fewer

claimed-IsInOrder :
    (w : World) (n : ℕ)
    → IsCounted w
    → w.awake ≡ suc n
    → IsInOrder w
    → InOrder (claim_call w.pool).1 (w.claims ++ (reading (claim_call w.pool).0 ∷ [])) w.taken_in
unfolding claim_call
claimed-IsInOrder w n c some_awake i =
    let p = w.pool in
    let first = calls-first p (omega (arith, c.counted, some_awake)) in
    record {
      claimed =
          omega (arith, i.claimed, length-append w.claims (reading (suc p.call_queue_head) ∷ []));
      holds =
          Holds-claim p.call_queue_period p.call_queue 1 (suc p.call_queue_head) w.claims
            (calls (claim_call p).1) w.taken_in (omega (arith, i.claimed))
            (subst (λ l. Holds p.call_queue_period p.call_queue 1 w.claims l w.taken_in) first
              i.holds);
    }

Step-IsInOrder : (w v : World) → Step HasRoom w v → IsCounted w → IsInOrder w → IsInOrder v
Step-IsInOrder w v (enqueues node room e) n i =
    let done = enqueue-joined w.pool node (omega (arith, n.counted)) in
    subst IsInOrder (sym e) (
      subst (λ p. InOrder p.1 w.claims (w.taken_in ++ (node ∷ []))) (sym done)
        (joined-IsInOrder w node n room i))
Step-IsInOrder w v (posts m some_left e) n i =
    subst IsInOrder (sym e) (record { claimed = i.claimed; holds = i.holds })
Step-IsInOrder w v (wakes p taken e) n i =
    let (m, some_posts, p_is) = wait_call-taken w.pool p taken in
    subst IsInOrder (sym e) (
      subst (λ q. InOrder q w.claims w.taken_in) (sym p_is)
        (record { claimed = i.claimed; holds = i.holds }))
Step-IsInOrder w v (claims_place m some_awake e) n i =
    subst IsInOrder (sym e) (claimed-IsInOrder w m n some_awake i)
Step-IsInOrder w v (reads k m at e) n i = subst IsInOrder (sym e) (record {
  claimed = length-set w.claims k (started (read_slot w.pool m)) ∙ i.claimed;
  holds =
      Holds-read w.pool.call_queue_period w.pool.call_queue 1 k m w.claims (calls w.pool) w.taken_in
        at i.holds;
})

Reach-IsInOrder :
    (threads max_wait : ℕ) {w : World} → Reach HasRoom (fresh threads max_wait) w → IsInOrder w
Reach-IsInOrder threads max_wait here = fresh-IsInOrder threads max_wait
Reach-IsInOrder threads max_wait (next {v} {u} r s) =
    Step-IsInOrder v u s (fresh_Reach-IsCounted threads max_wait r)
      (Reach-IsInOrder threads max_wait r)

-- However callers and workers are scheduled, from a new pool on, while at each enqueue the places from
-- the oldest one whose slot is not read are fewer than a period of the queue: the calls that were
-- taken in are, in order, those of the places that workers took, of which each that was read gave the
-- worker its call, followed by those that wait; and the queue has a call for each worker that is awake
-- or can wake.
pub calls_in_order :
    (threads max_wait : ℕ) {w : World}
    → Reach HasRoom (fresh threads max_wait) w
    → Matches w.claims (calls w.pool) w.taken_in × (w.pool.call_wait_n + w.awake ≤ waiting w.pool)
calls_in_order threads max_wait {w} r =
    let p = w.pool in
    (
      Holds-Matches p.call_queue_period p.call_queue 1 w.claims (calls p) w.taken_in
          (Reach-IsInOrder threads max_wait r).holds,
      omega (arith, (fresh_Reach-IsCounted threads max_wait r).counted),
    )
