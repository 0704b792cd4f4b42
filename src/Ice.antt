-- ===== src/Ice.antt =====
-- The ICE part: src/ss_p2p/ice_agent, by which a node learns its own global endpoint.
pub mod Reservation
pub mod Message
pub mod Signaling
pub mod Agent
pub mod Sender
pub mod Binding
pub mod StunServer
mod Tests
mod AgentTests
