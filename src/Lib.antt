-- ===== src/Lib.antt =====
-- A model of the C agent of this repository: the consumer agent of a service mesh, which takes HTTP
-- requests, looks up the provider agents of a service in etcd, and sends each request over a
-- multiplexed connection to the provider agent with the fewest requests in flight for its load level.
--
-- How the parts interact: the web server (Http) decodes a request and calls the consumer agent
-- (Consumer), which takes the service's name out of the form, asks service discovery (Discovery) for
-- a channel, and hands the request to the agent client manager (Acm). The manager holds the
-- request in its request map, puts it into the channel's write queue, and calls the request's
-- listening function when the response comes. The io threads of both are run by a thread pool
-- (ThreadPool); channels and messages live in memory pools (MemPool).
--
-- The files:
--   Base         names and lemmas that the others share: Boolean tests, arrays as lists, C integers
--                and strings, bitwise operations, the slots of a ring of cells.
--   Acm          src/main/c/src/core/agent-client-manager.c. Types has the structures of its header;
--                Codec acm_int2bytes and its kin; Request acm_request, acm_hold_request and
--                acm_response, which nothing calls, as acm_io_read_thread answers requests itself;
--                Write acm_io_write_thread; Read acm_io_read_thread, with the answers to requests
--                in Read/Answered; Connect acm_start, acm_connect and the body of acm_event_loop;
--                Events that body with its calls of the thread pool; Protocol the steps of the
--                threads that share a write queue.
--   ThreadPool   src/main/c/src/com/tdpool.c: tdpl_create, tdpl_call_func, tdpl_worker_thread; Schedule
--                the steps of callers and workers.
--   Discovery    src/main/c/src/core/service-discovery.c, with a module for each group of functions.
--   MemPool      src/main/c/src/com/mmpool.c: Types has the structures and mmpl_create, Get
--                mmpl_getmem, Release mmpl_rlsmem and mmpl_rls_oldestfree, Destroy
--                mmpl_destroy.
--   Http         src/main/c/src/core/http-server.c: Types the channel; Decoder hs_decoder, with an
--                automaton for the head of a request in Decoder/Scan and the grammar of heads
--                in Decoder/Heads; Io hs_io_read, hs_io_write and hs_response_ok; Server
--                hs_start, hs_bind, the accept thread, hs_new_connection and the event loop.
--   Consumer     src/main/c/src/core/consumer-agent.c: Form the functions on
--                the form of a request, Handler content_handler and acm_listening.
--   RbTree       src/main/c/src/com/rbtree.c, which no other part uses: search, rotations, insertion,
--                deletion (Delete) and the traversal on a heap of nodes; Shape and Rotate relate the
--                heap to a tree, Balance states the colors, Order the keys; KeySet and History are
--                the ordered set that the tree stands for.
--
-- Each structure is a record and each function a function on it that returns the new state. A
-- pointer to a payload is the bytes that it points to, a function pointer a number, a circular list
-- with a head the sequence of its members, an array a list; rbtree.c has a heap of nodes of its
-- own. What the code does with an undefined value or a NULL pointer is a result of its own. Results
-- of system calls (send, recv, malloc, connect, epoll_ctl), the reply of etcd and the arithmetic of
-- `float` are arguments.
--
-- Threads: a step is a critical section of the source or one atomic operation. In ThreadPool/Schedule a
-- worker's increment of the head and its reads of the slot are two steps; the place counts as not read
-- until both fields of the slot are. Its counters, of type unsigned long, do not wrap. In Acm/Protocol
-- each critical section and each lock operation is a step, those in which epoll_ctl or `send` fails
-- included. A call into service discovery, the memory pool or the web server is one step under the
-- locks that it takes.
--
-- Loops are structural on the results of the system calls, on the list that they walk or on the
-- bytes. hs_decoder runs on the number of bytes to decode, and each round takes one at least;
-- the loops of rbtree.c run on any number above that of the nodes; decimal numbers are printed with
-- ten digits at most, which an int does not exceed.
--
-- Not modelled: the log, the call of libcurl, the copies of cJSON and list.h, and cagent_start,
-- which starts the parts with constants. Of http-server.c, failures of epoll_ctl on a channel that is
-- in an epoll, and the functions that nothing calls.
pub mod Base
pub mod Acm
pub mod ThreadPool
pub mod Discovery
pub mod MemPool
pub mod Consumer
pub mod Http
pub mod RbTree
