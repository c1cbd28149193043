-- ===== src/Acm/Write/Queue.antt =====
-- The tasks of a write queue in order, and what a write to a slot makes of them.
use mw_race_service_mesh_c.Base.{
  ℕ, suc, ◌+◌, ◌-◌, ◌≤◌, ◌<◌, ◌≡◌, sym, ap, ◌∙◌, List, ◌∷◌, arith, length,
}
use mw_race_service_mesh_c.Base.Slots.{window, slot_ne, window-set_ne, window-set_first}
use mw_race_service_mesh_c.Acm.Types.{AcmHandle, AcmWriteTask, AcmChannel}
use mw_race_service_mesh_c.Acm.Request.{no_task}
use mw_race_service_mesh_c.Acm.Write.{task_of, put_index}

module _ (h : AcmHandle) where
  abbrev pub tasks : AcmChannel → List AcmWriteTask
  tasks c =
      window no_task h.max_write_queue_len c.write_queue (c.write_queue_head + 1)
        (c.write_queue_tail - (c.write_queue_head + 1))

  -- The tasks behind the first.
  abbrev pub later_tasks : AcmChannel → List AcmWriteTask
  later_tasks c =
      window no_task h.max_write_queue_len c.write_queue (suc (c.write_queue_head + 1))
        (c.write_queue_tail - suc (c.write_queue_head + 1))

  -- The queue fits its array, and the counters are in order.
  pub record IsQueue (c : AcmChannel) : Type 0 where
    pub storage : h.max_write_queue_len ≤ length c.write_queue
    pub ordered : c.write_queue_head < c.write_queue_tail
    pub bounded : c.write_queue_tail ≤ c.write_queue_head + 1 + h.max_write_queue_len

  pub tasks-cons :
      (c : AcmChannel)
      → c.write_queue_head + 1 < c.write_queue_tail
      → tasks c ≡ task_of h c ∷ later_tasks c
  tasks-cons c ne =
      ap (window no_task h.max_write_queue_len c.write_queue (c.write_queue_head + 1)) count
    where
      count :
          c.write_queue_tail - (c.write_queue_head + 1)
          ≡ suc (c.write_queue_tail - suc (c.write_queue_head + 1))
      count = omega arith

  pub tasks-put_index :
      (c : AcmChannel) (i : ℕ)
      → IsQueue c
      → c.write_queue_head + 1 < c.write_queue_tail
      → tasks (put_index h c i) ≡ record (task_of h c) { write_index = i } ∷ later_tasks c
  tasks-put_index c i q ne =
      ap (window no_task h.max_write_queue_len _ (c.write_queue_head + 1)) count
      ∙ window-set_first no_task h.max_write_queue_len c.write_queue _ (c.write_queue_head + 1) _
          (omega (arith, q.bounded)) q.storage
    where
      count :
          c.write_queue_tail - (c.write_queue_head + 1)
          ≡ suc (c.write_queue_tail - suc (c.write_queue_head + 1))
      count = omega arith

  pub later_tasks-put_index :
      (c : AcmChannel) (i : ℕ)
      → IsQueue c
      → c.write_queue_head + 1 < c.write_queue_tail
      → later_tasks (put_index h c i) ≡ later_tasks c
  later_tasks-put_index c i q ne =
      window-set_ne no_task h.max_write_queue_len c.write_queue (c.write_queue_head + 1) _ _ _
        (λ k lo hi e.
          slot_ne h.max_write_queue_len (c.write_queue_head + 1) k (omega arith)
            (omega (arith, q.bounded)) (sym e))

  -- Dropping the first task.
  pub tasks-suc_head :
      (c : AcmChannel)
      → tasks (record c { write_queue_head = suc c.write_queue_head }) ≡ later_tasks c
  tasks-suc_head c =
      ap (λ k. window no_task h.max_write_queue_len c.write_queue k (c.write_queue_tail - k)) next
    where
      next : suc c.write_queue_head + 1 ≡ suc (c.write_queue_head + 1)
      next = omega arith
