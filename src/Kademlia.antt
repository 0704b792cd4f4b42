-- ===== src/Kademlia.antt =====
-- The Kademlia part: include/ss_p2p/kademlia and src/ss_p2p/kademlia.
pub mod NodeId
pub mod Node
pub mod Bucket
pub mod RoutingTable
pub mod DirectController
pub mod Message
pub mod RpcManager
pub mod DhtManager
pub mod Maintainer
mod Tests
mod RpcTests
mod DhtTests
mod MaintainerTests
