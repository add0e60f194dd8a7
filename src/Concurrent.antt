-- ===== src/Concurrent.antt =====
-- src/Concurrent.hpp: stacks, queues and pools of nodes that are linked by their field `__m_next`.
pub mod Memory
pub mod Linear
pub mod Stack
pub mod Queue
pub mod Ring
pub mod LockQueue
pub mod Shared
pub mod Pool
pub mod SinglePool
pub mod Equalizer
