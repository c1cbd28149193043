-- ===== src/Http/Server/Pending/Connects.antt =====
-- The calls of hs_new_connection that wait, on the sockets that were accepted for them.
use mw_race_service_mesh_c.Base.{
  ◌==◌, if◌then◌else◌, ℕ, ◌*◌, ◌%◌, ◌<◌, ◌≡◌, ap, subst, Bool, true, false, Option, none, some,
  List, [], ◌∷◌, ◌++◌, arith, length, get_or, All,
}
use mw_race_service_mesh_c.Http.Types.{HsChannel, init_channel}
use mw_race_service_mesh_c.Http.Server.{HsConnectionEntry, HsHandle, HsBootstrap, StartCalls, start}
use mw_race_service_mesh_c.Acm.Connect.{made}
use mw_race_service_mesh_c.Http.Server.Accept.{
  entry, Connected, registered, dropped, undefined, new_connection,
}
use mw_race_service_mesh_c.Http.Server.Pending.{Server, Reach, Held, IsSized, All-middle}
use mw_race_service_mesh_c.Http.Server.Pending.Held.{Reach-IsHeld}

-- The server that hs_start gives, whatever the memory of its map holds.
abbrev pub started : HsHandle → Server
started h = record { handle = h; pending = [] }

-- A new channel for a socket: in an epoll and ready for a request, when there is memory and epoll takes
-- it, and dropped otherwise; without an event loop, the choice of an epoll divides by zero.
abbrev pub connected : HsHandle → ℕ → Option HsChannel → Bool → Connected
connected h fd none added = dropped fd
connected h fd (some c) false = if h.event_loop_num == 0 then undefined else dropped fd
connected h fd (some c) true =
    if h.event_loop_num == 0
    then undefined
    else registered (record (init_channel c) { buffer_size = h.buffer_size }) fd
        (get_or h.epoll_fd (h.epoll_i % h.event_loop_num) 0)

new_connection-connects :
    (h : HsHandle) (i fd : ℕ) (memory : Option HsChannel) (added : Bool)
    → (entry h i).taken ≡ true
    → (entry h i).socket_fd ≡ fd
    → (new_connection h i memory added).1 ≡ connected h fd memory added
unfolding new_connection
new_connection-connects h i fd none added taken socket = rw taken (ap dropped socket)
new_connection-connects h i fd (some c) false taken socket =
    rw taken (ap (λ f. if h.event_loop_num == 0 then undefined else dropped f) socket)
new_connection-connects h i fd (some c) true taken socket = rw taken (
    ap
      (λ f.
        if h.event_loop_num == 0
        then undefined
        else registered (record (init_channel c) { buffer_size = h.buffer_size }) f
            (get_or h.epoll_fd (h.epoll_i % h.event_loop_num) 0))
      socket)

-- The handle of hs_start has twenty entries for each connection.
start-IsSized :
    (calls : StartCalls) (memory : List HsConnectionEntry) (bt : HsBootstrap) (h : HsHandle)
    → start calls memory bt ≡ made h
    → length memory ≡ bt.max_connection * 20
    → 0 < bt.max_connection
    → IsSized h
unfolding start
start-IsSized calls memory bt h e whole some_connection = ground arith

-- From hs_start on, with connections allowed and memory for its map, however connections are accepted
-- and hs_new_connection runs for them: each call of it that waits will work on the socket that was
-- accepted for it, with a channel that is ready for a request and in an epoll, or else the socket is
-- dropped for want of memory or of room in the epoll; without an event loop, a call with memory divides
-- by zero.
pub pending-connects :
    (calls : StartCalls) (memory : List HsConnectionEntry) (bt : HsBootstrap) (h : HsHandle)
    (s : Server) (xs ys : List (ℕ × ℕ)) (i fd : ℕ) (room : Option HsChannel) (added : Bool)
    → start calls memory bt ≡ made h
    → length memory ≡ bt.max_connection * 20
    → 0 < bt.max_connection
    → Reach (started h) s
    → s.pending ≡ xs ++ ((i, fd) ∷ ys)
    → (new_connection s.handle i room added).1 ≡ connected s.handle fd room added
pending-connects calls memory bt h s xs ys i fd room added up whole some_connection r e =
    let k =
      Reach-IsHeld {s = started h}
        (record {
          held = tt;
          distinct = tt;
          sized = start-IsSized calls memory bt h up whole some_connection;
        })
        r in
    let (inside, taken, socket) =
      (All-middle (Held s.handle) xs ys (i, fd) (subst (All (Held s.handle)) e k.held)).0 in
    new_connection-connects s.handle i fd room added taken socket
