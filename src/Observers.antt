-- ===== src/Observers.antt =====
-- Observers wait for the answers to requests: include/ss_p2p/observer.hpp, src/ss_p2p/observer.cpp,
-- include/ss_p2p/observer_strage.hpp and src/ss_p2p/kademlia/k_observer.cpp.
pub mod Base
pub mod Sample
pub mod Storage
pub mod Ping
mod Tests
