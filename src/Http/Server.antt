-- ===== src/Http/Server.antt =====
-- `struct hs_handle`, `struct hs_connection_entry` and `struct hs_bootstrap` of
-- src/main/c/inc/core/http-server.h, hs_start and hs_bind. The thread pools and the memory pool have
-- models of their own; the handle keeps what the accept thread and hs_new_connection use.
pub mod Accept
pub mod Pending
pub mod Events
mod Tests
use mw_race_service_mesh_c.Base.{
  ℕ, zero, suc, ◌+◌, ◌-◌, ◌*◌, ◌/◌, ◌%◌, ◌^◌, ◌≤◌, ◌<◌, bit_and, bit_or, min, ◌≡◌, ◌≢◌, refl, sym,
  ap, ap₂, ◌∙◌, subst, ◌↔◌, ◌⊎◌, inl, inr, Bool, true, false, not, ◌&&◌, ◌||◌, Option, none, some,
  some-injective, none-ne-some, List, [], ◌∷◌, ◌++◌, append_assoc, append-nil, arith, ltb, leb,
  ◌==◌, if◌then◌else◌, ltb→lt, not_ltb→le, lt→ltb, le→not_ltb, leb→le, not_leb→lt, ==_iff, ==_refl,
  not_==→≢, le→leb, lt→not_leb, not_zero, pos→not_zero, both, not_both, true≢false, Bool-cases,
  Option-cases, length, get_elem?, get_or, set, take, drop, replicate, write_at, All, All-append,
  length-append, length-set, set-set, get_or-set_self, get_or-set_ne, length-take, length-drop,
  length-replicate,
}
use mw_race_service_mesh_c.Base.Int.{ℤ, pos, negsuc, ltb_ℤ}
use mw_race_service_mesh_c.Acm.Connect.{Made, null, made, undefined}

-- `taken` is `p_handle != NULL`.
pub record HsConnectionEntry : Type 0 where
  pub taken : Bool
  pub socket_fd : ℕ

-- `epoll_i` is a static variable of hs_new_connection.
pub record HsHandle : Type 0 where
  pub max_connection : ℕ
  pub buffer_size : ℕ
  pub sockfd : ℤ
  pub epoll_fd : List ℕ
  pub event_loop_num : ℕ
  pub new_connection_map : List HsConnectionEntry
  pub new_connection_map_size : ℕ
  pub connection_id : ℕ
  pub epoll_i : ℕ

pub record HsBootstrap : Type 0 where
  pub event_loop_num : ℕ
  pub max_connection : ℕ
  pub buffer_size : ℕ

-- The system calls of hs_bind in order: `socket` gives a descriptor, or none.
pub record BindCalls : Type 0 where
  pub socket : Option ℕ
  pub reuse_ok : Bool
  pub no_delay_ok : Bool
  pub bind_ok : Bool

unfoldable pub bind : BindCalls → ℤ
bind calls = elim calls.socket [
  | none ↦ negsuc 0
  | some fd ↦
      if calls.reuse_ok
      then (if calls.no_delay_ok then (if calls.bind_ok then pos fd else negsuc 2) else negsuc 2)
      else negsuc 1
]

-- MAX_EPOLL_EVENT_LOOP_NUM
abbrev pub max_epoll_event_loop_num : ℕ
max_epoll_event_loop_num = 64

-- The calls of hs_start in order, with what epoll_create gives for each event loop, and whether the
-- thread pool takes it.
pub record StartCalls : Type 0 where
  pub malloc_ok : Bool
  pub tdpl_worker_ok : Bool
  pub tdpl_io_ok : Bool
  pub tdpl_close_ok : Bool
  pub tdpl_accept_ok : Bool
  pub mmpl_ok : Bool
  pub binding : BindCalls
  pub epolls : ℕ → Option ℕ
  pub loop_ok : ℕ → Bool
  pub map_ok : Bool
  pub accept_ok : Bool

-- The first `n` epolls, unless one is refused.
unfoldable pub create_epolls : (ℕ → Option ℕ) → ℕ → Option (List ℕ)
create_epolls epolls zero = some []
create_epolls epolls (suc n) = elim (create_epolls epolls n) [
  | none ↦ none
  | some fds ↦ elim (epolls n) [ none ↦ none | some fd ↦ some (fds ++ (fd ∷ [])) ]
]

unfoldable pub start_loops : (ℕ → Bool) → ℕ → Bool
start_loops loop_ok zero = true
start_loops loop_ok (suc n) = start_loops loop_ok n && loop_ok n

-- hs_start. `memory` is what the memory of the connection map holds, which is not cleared. More event
-- loops than the handle has room for, and a map without memory, are uses of memory that is not the
-- handle's.
unfoldable pub start : StartCalls → List HsConnectionEntry → HsBootstrap → Made HsHandle
unfolding bind create_epolls start_loops
start calls memory bt =
    let sockfd = bind calls.binding in
    let with_epolls : List ℕ → Made HsHandle = λ fds.
      if start_loops calls.loop_ok bt.event_loop_num
      then (if calls.map_ok
          then (if calls.accept_ok
              then made (record {
                max_connection = bt.max_connection;
                buffer_size = bt.buffer_size;
                sockfd = sockfd;
                epoll_fd = fds;
                event_loop_num = bt.event_loop_num;
                new_connection_map = memory;
                new_connection_map_size = bt.max_connection * 20;
                connection_id = 0;
                epoll_i = 0;
              })
              else null)
          else undefined)
      else null in
    if calls.malloc_ok
      && calls.tdpl_worker_ok
      && calls.tdpl_io_ok
      && calls.tdpl_close_ok
      && calls.tdpl_accept_ok
      && calls.mmpl_ok
      && not (ltb_ℤ sockfd (pos 0))
    then (if ltb max_epoll_event_loop_num bt.event_loop_num
        then undefined
        else elim (create_epolls calls.epolls bt.event_loop_num) [
          | none ↦ null
          | some fds ↦ with_epolls fds
        ])
    else null
