-- ===== src/MessagePool.antt =====
-- include/ss_p2p/message_pool.hpp and src/ss_p2p/message_pool.cpp: the messages received from each
-- peer, kept in one buffer for each peer id, and the hub that hands them to the application.
-- Message ids are Boost UUIDs, endpoints are Boost.Asio's, and peer ids are SHA-1 digests made by a
-- library outside this repository: their types and `calc_peer_id` are parameters. Each reading of
-- the clock and each new random id is an argument of the operation that takes it.
pub mod Buffer
pub mod Pool
mod Tests
