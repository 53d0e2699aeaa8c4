-- ===== src/Rpc.antt =====
-- web/app/rpc.ts: the control link between the page and the guest.
pub mod Frame
pub mod Fifo
pub mod Parser
pub mod Json
pub mod Link
