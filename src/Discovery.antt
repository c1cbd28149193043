-- ===== src/Discovery.antt =====
-- src/main/c/src/core/service-discovery.c: the table of services, and the endpoint that a request
-- is sent to.
pub mod Types
pub mod Endpoints
pub mod Address
pub mod Balance
pub mod Table
pub mod Find
mod Tests
