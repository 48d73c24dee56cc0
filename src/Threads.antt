-- ===== src/Threads.antt =====
-- thread_t: queues that threads share, as step relations.
pub mod Label
pub mod RingQueue
pub mod BlockQueue
pub mod OutBlockQueue
mod Tests
mod BlockTests
mod WorkerTests
