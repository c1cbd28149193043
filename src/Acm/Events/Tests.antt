-- ===== src/Acm/Events/Tests.antt =====
-- An event of a channel that is free for both io threads.
use mw_race_service_mesh_c.Base.{◌≡◌, refl, true, false, [], replicate}
use mw_race_service_mesh_c.Acm.Types.{AcmChannel}
use mw_race_service_mesh_c.Acm.Request.{no_task}
use mw_race_service_mesh_c.Acm.Connect.{Event, new_channel}
use mw_race_service_mesh_c.Acm.Events.{run_event}
use mw_race_service_mesh_c.Acm.Events.Queued.{Queued, run_event-Queued}
use mw_race_service_mesh_c.ThreadPool.{init_pool, enqueue}
use mw_race_service_mesh_c.ThreadPool.Schedule.{here, fresh}

abbrev free_channel : AcmChannel
free_channel =
    record (new_channel (record {
      tasks = replicate 4 no_task;
      msg = record { head = record { req_id = 0; data_size = 0 }; content = [] };
      head = replicate 12 7;
      index = 5;
    })) { consume_locked = false }

abbrev both_ways : Event
both_ways = record { err = false; rdhup = false; readable = true; writable = true }

-- Two calls more wait.
both_queued : (run_event 1 2 (fresh 2 4).pool 9 free_channel both_ways).1.call_wait_n ≡ 2
unfolding run_event init_pool enqueue
both_queued = refl

run_event-Queued_example :
    Queued 1 2
      (fresh 2 4).pool
      9
      free_channel
      both_ways
      (run_event 1 2 (fresh 2 4).pool 9 free_channel both_ways)
run_event-Queued_example = run_event-Queued 2 4 1 2 9 free_channel both_ways here
