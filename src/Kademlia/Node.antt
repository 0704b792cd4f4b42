-- ===== src/Kademlia/Node.antt =====
-- src/ss_p2p/kademlia/k_node.cpp and include/ss_p2p/kademlia/k_node.hpp: an endpoint with its id.
-- The endpoint type is Boost.Asio's, so it is a parameter `E`, and so is `calc_node_id`, which
-- goes through a SHA-1 implementation outside this repository.
use ss_p2p_node_controller.Common.{Bool, true, false, not, ite, List, map}
use ss_p2p_node_controller.Kademlia.NodeId.{NodeId, eq_id, none_id}

pub record KNode (E : Type 0) : Type 0 where
  pub ep : E
  pub id : NodeId

-- The constructor from an endpoint.
abbrev pub of_endpoint : {E : Type 0} → (E → NodeId) → E → KNode E
of_endpoint calc_node_id ep = record { ep = ep; id = calc_node_id ep }

-- `operator==`: two nodes are the same when their ids are; the endpoints are not compared.
abbrev pub eq_node : {E : Type 0} → KNode E → KNode E → Bool
eq_node a b = ite (eq_id a.id b.id) true false

-- `operator!=`.
abbrev pub ne_node : {E : Type 0} → KNode E → KNode E → Bool
ne_node a b = not (eq_node a b)

-- `blank`: the endpoint 0.0.0.0:0, given as `any_ep`, under the id of zeros.
abbrev pub blank : {E : Type 0} → E → KNode E
blank any_ep = record { ep = any_ep; id = none_id }

abbrev pub ids : {E : Type 0} → List (KNode E) → List NodeId
ids = map (λ n. n.id)
