-- ===== src/Acm.antt =====
-- src/main/c/src/core/agent-client-manager.c: the link from the consumer agent to a provider agent.
-- Types holds the structures of agent-client-manager.h, Codec the byte order of a message head,
-- Request the request map and the write queue, Write and Read the two io threads, Connect acm_start,
-- acm_connect and the event loop, Protocol the steps of the threads that share a write queue.
pub mod Types
pub mod Codec
pub mod Request
pub mod Write
pub mod Read
pub mod Connect
pub mod Events
pub mod Protocol
mod Tests
