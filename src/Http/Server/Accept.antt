-- ===== src/Http/Server/Accept.antt =====
-- A round of hs_accept_thread, and hs_new_connection, which a thread of the pool runs for it.
use mw_race_service_mesh_c.Base.{
  ◌==◌, ℕ, ◌+◌, ◌%◌, ◌^◌, Bool, true, false, Option, none, some, if◌then◌else◌, get_or, set,
}
use mw_race_service_mesh_c.Http.Types.{HsChannel, init_channel}
use mw_race_service_mesh_c.Http.Server.{HsConnectionEntry, HsHandle}

-- What a round comes to: no connection; one that is closed, for want of an entry or because the thread
-- pool does not take the call; or a call of hs_new_connection on an entry.
pub data Accepted : Type 0 where
  failed : Accepted
  full : ℕ → Accepted
  refused : ℕ → ℕ → Accepted
  queued : ℕ → ℕ → Accepted

abbrev pub no_entry : HsConnectionEntry
no_entry = record { taken = false; socket_fd = 0 }

abbrev pub entry : HsHandle → ℕ → HsConnectionEntry
entry h i = get_or h.new_connection_map i no_entry

-- The entry of the next connection. `unsigned long` has 64 bits.
abbrev pub next_entry : HsHandle → ℕ
next_entry h = h.connection_id % h.new_connection_map_size

abbrev pub counted : HsHandle → HsHandle
counted h = record h { connection_id = (h.connection_id + 1) % 2 ^ 64 }

abbrev pub set_entry : HsHandle → ℕ → HsConnectionEntry → HsHandle
set_entry h i e = record h { new_connection_map = set h.new_connection_map i e }

-- `socket` is what `accept` gives, `taken` whether tdpl_call_func takes the call.
unfoldable pub accept : HsHandle → Option ℕ → Bool → HsHandle × Accepted
accept h none taken = (h, failed)
accept h (some fd) taken =
    let i = next_entry h in
    let held = set_entry (counted h) i (record { taken = true; socket_fd = fd }) in
    if (entry h i).taken
    then (counted h, full fd)
    else (held, if taken then queued i fd else refused i fd)

-- A channel that is in an epoll with its socket; a socket that is dropped without being closed; or a use
-- of NULL, when the entry has no handle, or a division by zero, when there is no event loop.
pub data Connected : Type 0 where
  registered : HsChannel → ℕ → ℕ → Connected
  dropped : ℕ → Connected
  undefined : Connected

-- `memory` is the memory of the channel and its buffer, as mmpl_getmem gives it, or NULL; `added` is
-- whether epoll_ctl adds the socket.
unfoldable pub new_connection : HsHandle → ℕ → Option HsChannel → Bool → HsHandle × Connected
unfolding init_channel
new_connection h i memory added =
    let e = entry h i in
    let freed = set_entry h i (record e { taken = false }) in
    let next = record freed { epoll_i = (h.epoll_i + 1) % 2 ^ 64 } in
    if e.taken
    then elim memory [
      | none ↦ (freed, dropped e.socket_fd)
      | some c ↦ (
        next,
        if h.event_loop_num == 0
            then undefined
            else (if added
                then registered (record (init_channel c) { buffer_size = h.buffer_size })
                    e.socket_fd (get_or h.epoll_fd (h.epoll_i % h.event_loop_num) 0)
                else dropped e.socket_fd),
      )
    ]
    else (h, undefined)
