-- ===== src/Channel.antt =====
-- The channels of the framework (src/yarf/channel): queues in shared memory between two processes.
pub mod Words
pub mod Memory
pub mod UnlockQueue
