-- ===== src/Http/Server/Events.antt =====
-- The body of hs_event_loop, hs_io_do_read and hs_io_do_write.
use mw_race_service_mesh_c.Base.{ℕ, Bool, true, List, [], ◌∷◌, ◌++◌, if◌then◌else◌}
use mw_race_service_mesh_c.Base.Int.{ℤ, pos, negsuc}

-- What epoll reports of a channel.
pub record Event : Type 0 where
  pub channel : ℕ
  pub err : Bool
  pub rdhup : Bool
  pub readable : Bool
  pub writable : Bool

-- What the loop does about it: a call of hs_io_read or hs_io_write in the io threads, or the channel
-- leaves epoll.
pub data Action : Type 0 where
  reads : ℕ → Action
  writes : ℕ → Action
  leaves : ℕ → Action

-- hs_io_do_read and hs_io_do_write: `taken` is whether tdpl_call_func takes the call.
unfoldable pub io_do_read : ℕ → Bool → ℤ × List Action
io_do_read c taken = if taken then (pos 1, reads c ∷ []) else (negsuc 0, [])

unfoldable pub io_do_write : ℕ → Bool → ℤ × List Action
io_do_write c taken = if taken then (pos 1, writes c ∷ []) else (negsuc 0, [])

-- One event. A call that is not taken is not made again.
unfoldable pub handle_event : Event → (taken_read taken_write : Bool) → List Action
unfolding io_do_read io_do_write
handle_event e taken_read taken_write =
    if e.err
    then []
    else (if e.rdhup
        then leaves e.channel ∷ []
        else (if e.readable then (io_do_read e.channel taken_read).1 else [])
          ++ (if e.writable then (io_do_write e.channel taken_write).1 else []))

-- One round on the events that epoll_wait gives, when the thread pool takes every call.
unfoldable pub handle_events : List Event → List Action
unfolding handle_event
handle_events [] = []
handle_events (e ∷ es) = handle_event e true true ++ handle_events es
