-- ===== src/Http/Server/Tests.antt =====
-- Concrete runs of the web server's connections.
use mw_race_service_mesh_c.Base.{◌+◌, ◌≡◌, refl, true, false, some, [], ◌∷◌, arith, replicate}
use mw_race_service_mesh_c.Base.Int.{pos}
use mw_race_service_mesh_c.Acm.Connect.{made, null, undefined}
use mw_race_service_mesh_c.Http.Types.{HsChannel}
use mw_race_service_mesh_c.Http.Server.{HsHandle, HsBootstrap, StartCalls, start}
use mw_race_service_mesh_c.Http.Server.Accept.{accept, new_connection, no_entry}
use mw_race_service_mesh_c.Http.Server.Events.{reads, writes, leaves, handle_events}
use mw_race_service_mesh_c.Http.Server.Pending.{Server, Reach, here, next, accepts}
use mw_race_service_mesh_c.Http.Server.Pending.Connects.{started, connected, pending-connects}

abbrev handle : HsHandle
handle = record {
  max_connection = 1;
  buffer_size = 4;
  sockfd = pos 3;
  epoll_fd = 4 ∷ [];
  event_loop_num = 1;
  new_connection_map = replicate 20 no_entry;
  new_connection_map_size = 20;
  connection_id = 0;
  epoll_i = 0;
}

abbrev all_go_well : StartCalls
all_go_well = record {
  malloc_ok = true;
  tdpl_worker_ok = true;
  tdpl_io_ok = true;
  tdpl_close_ok = true;
  tdpl_accept_ok = true;
  mmpl_ok = true;
  binding = record { socket = some 3; reuse_ok = true; no_delay_ok = true; bind_ok = true };
  epolls = λ i. some (4 + i);
  loop_ok = λ i. true;
  map_ok = true;
  accept_ok = true;
}

abbrev bootstrap : HsBootstrap
bootstrap = record { event_loop_num = 1; max_connection = 1; buffer_size = 4 }

starts : start all_go_well (replicate 20 no_entry) bootstrap ≡ made handle
unfolding start
starts = refl

port_taken :
    start
      (record all_go_well {
        binding = record { socket = some 3; reuse_ok = true; no_delay_ok = true; bind_ok = false };
      })
      (replicate 20 no_entry)
      bootstrap
    ≡ null
unfolding start
port_taken = refl

too_many_loops :
    start all_go_well (replicate 20 no_entry) (record bootstrap { event_loop_num = 65 }) ≡ undefined
unfolding start
too_many_loops = refl

abbrev channel : HsChannel
channel = record {
  is_line = false;
  is_head = false;
  is_body = false;
  is_read_done = true;
  is_key = true;
  is_content_length = false;
  key_start = 9;
  value_start = 9;
  processing_end = 9;
  decode_index = 9;
  body_size = pos 9;
  body_start = 9;
  read_index = 9;
  write_index = 9;
  write_size = 9;
  buffer_size = 9;
  buffer = replicate 4 0;
}

-- Two connections, of which the second one is run first.
abbrev one : Server
one = record { handle = (accept handle (some 7) true).0; pending = (0, 7) ∷ [] }

abbrev two : Server
two = record { handle = (accept one.handle (some 8) true).0; pending = (0, 7) ∷ (1, 8) ∷ [] }

two-Reach : Reach (started handle) two
unfolding accept
two-Reach = next (next here (accepts (started handle) (some 7) true)) (accepts one (some 8) true)

pending-connects_example :
    (new_connection two.handle 1 (some channel) true).1 ≡ connected two.handle 8 (some channel) true
pending-connects_example =
    pending-connects all_go_well (replicate 20 no_entry) bootstrap handle two ((0, 7) ∷ []) [] 1 8
      (some channel) true starts refl (omega arith) two-Reach refl

-- A channel that can be read and written, and one whose peer has closed.
events_in_order :
    handle_events (
      record { channel = 1; err = false; rdhup = false; readable = true; writable = true }
      ∷ record { channel = 2; err = false; rdhup = true; readable = true; writable = false }
      ∷ [])
    ≡ reads 1 ∷ writes 1 ∷ leaves 2 ∷ []
unfolding handle_events
events_in_order = refl
