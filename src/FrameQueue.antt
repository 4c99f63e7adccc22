-- ===== src/FrameQueue.antt =====
-- components/smart_lock/src/frame/frame_que_v2.c: the multi-consumer frame queue. `Node` and `Queue`
-- hold its data, `Producer`, `Consumer` and `Admin` the functions on one queue, `State` the array of
-- queues and the public functions; the other children hold the proofs.
pub mod Node
pub mod Queue
pub mod Producer
pub mod Consumer
pub mod Admin
pub mod State
pub mod Scan
pub mod Setup
pub mod Supply
pub mod Mailbox
pub mod Invariant
pub mod Nodes
pub mod Lift
pub mod Shape
pub mod Buffers
mod Tests
