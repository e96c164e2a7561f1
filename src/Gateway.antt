-- ===== src/Gateway.antt =====
-- crates/kernel/src/service/http_gateway.rs: the router of a gateway.
-- Services, plugins and the extensions of a request other than the matched route are left out; a
-- route's place in the list is its index.
pub mod Build
pub mod Route
pub mod Requests
