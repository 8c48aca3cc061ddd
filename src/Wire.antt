-- ===== src/Wire.antt =====
-- The local wire protocol: frames and the routing of requests (src/scs/wire).
pub mod Framing
pub mod Frames
pub mod Router
pub mod Routing
mod Tests
