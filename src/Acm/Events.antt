-- ===== src/Acm/Events.antt =====
-- acm_io_do_read and acm_io_do_write, and an event of acm_event_loop with the calls that
-- it makes of the thread pool. A channel's address and the two io threads are numbers.
pub mod Queued
mod Tests
use mw_race_service_mesh_c.Base.{ℕ, Bool, Option, none, some, if◌then◌else◌}
use mw_race_service_mesh_c.Base.Int.{ℤ, pos, negsuc}
use mw_race_service_mesh_c.Acm.Types.{AcmChannel}
use mw_race_service_mesh_c.Acm.Connect.{Event, Dispatch, handle_event}
use mw_race_service_mesh_c.ThreadPool.{Tdpl, call_func}

abbrev pub refused : ℤ × Tdpl → ℤ × Tdpl
refused (pos n, p) = (pos 1, p)
refused (negsuc n, p) = (negsuc 1, p)

-- acm_io_do_read and acm_io_do_write on a channel, or on NULL.
unfoldable pub io_do_read : ℕ → Tdpl → Option ℕ → ℤ × Tdpl
unfolding call_func
io_do_read io_read_thread p none = (negsuc 0, p)
io_do_read io_read_thread p (some channel) = refused (call_func p (some io_read_thread) channel)

unfoldable pub io_do_write : ℕ → Tdpl → Option ℕ → ℤ × Tdpl
unfolding call_func
io_do_write io_write_thread p none = (negsuc 0, p)
io_do_write io_write_thread p (some channel) = refused (call_func p (some io_write_thread) channel)

-- The body of the `for` loop of acm_event_loop, with the pool of the io threads.
unfoldable pub run_event : ℕ → ℕ → Tdpl → ℕ → AcmChannel → Event → Dispatch × Tdpl
unfolding handle_event io_do_read io_do_write
run_event io_read_thread io_write_thread p address c e =
    let d = handle_event c e in
    let p1 = if d.starts_read then (io_do_read io_read_thread p (some address)).1 else p in
    let p2 = if d.starts_write then (io_do_write io_write_thread p1 (some address)).1 else p1 in
    (d, p2)
