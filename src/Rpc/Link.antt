-- ===== src/Rpc/Link.antt =====
-- class RpcLink of web/app/rpc.ts.
pub mod State
pub mod Sender
pub mod Session
pub mod Receive
pub mod Events
pub mod Effects
pub mod Sound
pub mod Starts
pub mod Acks
pub mod Answers
pub mod Received
pub mod Steps
pub mod Loss
