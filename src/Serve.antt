-- ===== src/Serve.antt =====
-- The HTTP server (src/serve.rs): its routes. The connections, the pool of VMs and the Lua values of
-- a request are not modelled.
pub mod Router
mod Tests
