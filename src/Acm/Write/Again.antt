-- ===== src/Acm/Write/Again.antt =====
-- What EAGAIN does in the middle of a payload.
use mw_race_service_mesh_c.Base.{
  ℕ, suc, ◌+◌, ◌-◌, ◌≤◌, ◌<◌, ◌≡◌, refl, ap, ◌∙◌, List, [], ◌∷◌, ◌++◌, true, arith, All, lt→ltb,
  ltb, le→not_ltb, length, get_or, take, drop, length-append, length-take,
}
use mw_race_service_mesh_c.Base.Segments.{drop-cons}
use mw_race_service_mesh_c.Acm.Types.{AcmHandle, AcmChannel, msg_head_size}
use mw_race_service_mesh_c.Acm.Write.{again, break_loop, head_bytes, task_of, put_index, write_step}
use mw_race_service_mesh_c.Acm.Write.Queue.{
  tasks, later_tasks, IsQueue, tasks-cons, tasks-put_index,
}
use mw_race_service_mesh_c.Acm.Write.Stream.{frame, IsTask, unsent, length-head_bytes}

-- On a queue whose first task has its head sent, a round in which `send` answers EAGAIN sends
-- nothing, ends the run, and puts the last byte that was sent before it back in front of what is
-- still to be sent: the peer gets that byte twice.
pub write_step-again :
    (h : AcmHandle) (c : AcmChannel)
    → IsQueue h c
    → c.write_queue_head + 1 < c.write_queue_tail
    → All IsTask (tasks h c)
    → msg_head_size ≤ (task_of h c).write_index
    → ((write_step h c again).output ≡ [])
      × ((write_step h c again).next ≡ break_loop)
      × (unsent (tasks h (write_step h c again).channel)
          ≡ get_or (frame (task_of h c)) ((task_of h c).write_index - 1) 0 ∷ unsent (tasks h c))
unfolding write_step
write_step-again h c q ne v ge = rw (le→not_ltb i msg_head_size ge, before_end) (refl, refl, resent)
  where
    i : ℕ
    i = (task_of h c).write_index

    f : List ℕ
    f = frame (task_of h c)

    first_valid : All IsTask (task_of h c ∷ later_tasks h c)
    first_valid = rw (tasks-cons h c ne) at v

    before_end : ltb (i - 1) ((task_of h c).head.data_size + msg_head_size) ≡ true
    before_end = lt→ltb _ _ (omega (arith, first_valid.0.index))

    in_frame : i - 1 < length f
    in_frame = omega (
      arith,
      first_valid.0.index,
      first_valid.0.payload,
      length-append (head_bytes (task_of h c).head)
          (take (task_of h c).head.data_size (task_of h c).content),
      length-head_bytes (task_of h c),
      length-take (task_of h c).head.data_size (task_of h c).content,
    )

    back : suc (i - 1) ≡ i
    back = omega arith

    resent :
        unsent (tasks h (put_index h c (i - 1)))
        ≡ get_or (frame (task_of h c)) (i - 1) 0 ∷ unsent (tasks h c)
    resent =
        rw (tasks-put_index h c (i - 1) q ne, tasks-cons h c ne)
          (ap (λ xs. xs ++ unsent (later_tasks h c))
            (drop-cons (i - 1) f 0 in_frame ∙ ap (λ k. get_or f (i - 1) 0 ∷ drop k f) back))
