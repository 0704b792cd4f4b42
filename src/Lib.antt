-- ===== src/Lib.antt =====
-- A model of ss_p2p_node_controller, a peer-to-peer node in C++: a Kademlia routing table, the pool
-- of the messages received from each peer, the protocols by which nodes find each other, and the
-- handler of a received packet that joins them.
--
-- Parts and files. All paths are from the repository's root.
-- - Common: shared names, Boolean tests on native numbers, list helpers.
-- - Kademlia/NodeId: src/ss_p2p/kademlia/node_id.cpp. A node_id is its list of twenty bytes;
--   calc_node_xor_distance keeps its two loops. NodeId/Metric has its laws.
-- - Kademlia/Node: src/ss_p2p/kademlia/k_node.cpp, an endpoint with its id.
-- - Kademlia/Bucket: src/ss_p2p/kademlia/k_bucket.cpp. A k_bucket is its vector, and each member
--   function is a function of the same name; an iterator found by std::find is a Position.
-- - Kademlia/RoutingTable: src/ss_p2p/kademlia/k_routing_table.cpp, 160 buckets. Its auto_update and
--   swap_node call those of the bucket that calc_branch_index names. RoutingTable/Collect is
--   collect_node, RoutingTable/Iterator the k_bucket_iterator and the loop of send_refresh_ping in
--   src/ss_p2p/kademlia/connection_maintainer.cpp.
-- - Kademlia/DirectController: src/ss_p2p/kademlia/direct_routing_table_controller.cpp, which turns
--   endpoints into nodes and calls the routing table.
-- - MessagePool/Buffer: peer_message_buffer of src/ss_p2p/message_pool.cpp. MessagePool/Pool: the
--   message_pool, which keeps one buffer for each peer id, and its message_hub.
-- - Observers/Base: base_observer of src/ss_p2p/observer.cpp. Observers/Storage: observer_strage of
--   include/ss_p2p/observer_strage.hpp for one type of observer. Observers/Ping: the ping of
--   src/ss_p2p/kademlia/k_observer.cpp, whose handlers move a node back in its bucket or delete it.
-- - Ice/Reservation: sr_object of src/ss_p2p/ice_agent/stun_server.cpp. Ice/Binding: the observer
--   binding_request of src/ss_p2p/ice_agent/ice_observer.cpp, which votes on the endpoint under which
--   other nodes see this one. Ice/StunServer: binding_request of stun_server.cpp, which chooses the
--   nodes to ask from the routing table and makes the observer.
-- - Ice/Message: ice_message of src/ss_p2p/ice_agent/ice_message.cpp. Ice/Signaling: the signaling server
--   of src/ss_p2p/ice_agent/signaling_server.cpp and the signaling observers of ice_observer.cpp.
--   Ice/Agent: the dispatch of src/ss_p2p/ice_agent/ice_agent.cpp over the storages of the observers.
--   Ice/Sender: src/ss_p2p/ice_agent/ice_sender.cpp, the datagrams of its packets.
-- - Kademlia/Message: k_message of src/ss_p2p/kademlia/k_message.cpp over an interface to the JSON
--   library. Kademlia/RpcManager: how rpc_manager of src/ss_p2p/kademlia/rpc_manager.cpp answers a
--   ping and a find_node, with the routing table as its state and the sent messages as output.
--   Kademlia/DhtManager: src/ss_p2p/kademlia/dht_manager.cpp, which offers a message to its observer and
--   then to rpc_manager, with the requests that make the observers.
--   Kademlia/Maintainer: the ticks of src/ss_p2p/kademlia/connection_maintainer.cpp. Its timer is the wait
--   that is pending, and a cancelled wait puts its handler among those that the event loop calls.
-- - NodeController: on_receive_packet of src/ss_p2p/node_controller.cpp, which hands a packet to
--   Kademlia/DhtManager and Ice/Agent and stores it in the MessagePool. Message: the parameters of a
--   packet, src/ss_p2p/message.cpp.
--   NodeController/Lifecycle: start, stop, the tick and a new global endpoint. NodeController/EndToEnd: from
--   a datagram to the application. NodeController/Command: what a typed line does.
-- - Interface: src/ss_p2p/interface.cpp, the words of a typed line.
-- - UdpServer: src/ss_p2p/udp_server.cpp, with the queue of the event loop and the pending receives as its
--   state. Sender: src/ss_p2p/sender.cpp, the datagrams that are given to the socket.
-- - Peer: src/ss_p2p/peer.cpp, which takes messages from a copy of a buffer of the MessagePool. Multicast:
--   src/ss_p2p/multicast_manager.cpp, which picks peers from the routing table.
-- - Endpoint: endpoints as text, src/utils.cpp, over an interface to Boost.Asio.
--   Endpoint/Binary: their bytes and the ids that are hashed from them.
-- - Logger: include/logger/logger.impl.hpp and include/ss_p2p/ss_logger.hpp, the text of a log line, with the
--   loop that fills its placeholders.
-- - Json: the interface to the JSON library behind include/json.hpp. Json/Sample is a small JSON type
--   for the tests.
--
-- How state and failure are modelled. An object is a record and an operation a function from the
-- old state to the new one. Locks and threads are left out: an operation is one step. Undefined
-- behaviour is the result `fault`, and in the handlers of messages `none`, which also stands for an
-- exception of the JSON library. What is posted to the event loop is an output or joins a queue. A
-- timer that is set again cancels the wait that was pending, whose handler is still called. std::size_t has 64 bits, and its wrap is written out where the
-- code can reach it.
--
-- Bounds. collect_node runs on 162 rounds, since its count starts at 1 and both sides of the table
-- are exhausted once it passes 160. The walk of send_refresh_ping runs on 161 rounds, one for each
-- bucket and one to see the end. The loop of replace in Logger/Utils runs on one round more than the
-- text has characters. All are proved to be enough.
--
-- Parameters. The endpoints and addresses of Boost.Asio (`Net` of Endpoint), JSON values (`Json`), the
-- ids of observers (`Ids` of Observers/Base), the BSON encoding (`Bson` of Message), message ids,
-- messages in a buffer and the SHA-1 digest behind calc_node_id and calc_peer_id come from outside the
-- repository, as do std::sort, std::shuffle, the clock and the random ids, whose readings are arguments. The hypotheses on them stand in the records `NetLaws`,
-- `JsonLaws`, `BsonLaws` and `IdsLaws`, and the Sample modules fill them.
--
-- Not modelled: sockets, threads, timers beyond their being armed and cancelled, what the parts log,
-- printing, the vendored JSON library, the example programs and tests, and union_observer, which nothing
-- uses.
pub mod Common
pub mod Endpoint
pub mod Ice
pub mod Interface
pub mod Json
pub mod Kademlia
pub mod Logger
pub mod Message
pub mod MessagePool
pub mod Multicast
pub mod NodeController
pub mod Observers
pub mod Peer
pub mod Sender
pub mod UdpServer
