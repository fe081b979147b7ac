-- ===== src/Routing.antt =====
-- How the socket types choose among their pipes: the array of pipes, distribution, load balancing
-- and fair queueing.
pub mod Array
pub mod Pipes
pub mod Dist
pub mod Ring
pub mod Lb
pub mod Fq
mod Tests
