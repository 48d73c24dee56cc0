-- ===== src/Reactor.antt =====
-- IO/reactor: the edge-triggered epoll server. `Connection` and `Manager` are `connection` and
-- `conn_manager`, `Server` the handlers and the event loop of `server_reactor`, `Setup` its start.
pub mod Connection
pub mod Manager
pub mod Kernel
pub mod World
pub mod Server
pub mod Loop
pub mod Trace
pub mod Rules
pub mod Invariant
pub mod Isolation
pub mod Listener
pub mod Faults
pub mod EndToEnd
mod Tests
pub mod Delivery
pub mod LoopInvariant
pub mod Sweep
pub mod Setup
