-- ===== src/Supervisor.antt =====
-- src/app/supervisor.cpp: the state of the network as the supervisor sees it, the gates of a
-- submission, and the way of a hit to the pool or into the bag.
pub mod Oracle
pub mod Network
pub mod Drain
pub mod Live
pub mod Flush
pub mod Worker
pub mod Run
pub mod Events
