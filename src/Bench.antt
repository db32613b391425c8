-- ===== src/Bench.antt =====
-- benchmark/src: the load generator that plays hosts and clients against the relay.
pub mod Solver
pub mod Tokens
pub mod Rooms
pub mod Cleanup
pub mod Dialing
pub mod Loops
pub mod Protocol
pub mod Decoding
