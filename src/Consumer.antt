-- ===== src/Consumer.antt =====
-- src/main/c/src/core/consumer-agent.c: a request of the web server goes to a provider agent.
pub mod Form
pub mod Handler
mod Tests
