-- ===== src/Multicast.antt =====
-- multicast_manager of src/ss_p2p/multicast_manager.cpp: which peers get a message that is for several. `R`
-- is what ep_to_peer_func makes of an endpoint. The order that std::shuffle gives the indices is an
-- argument.
pub mod Laws
mod Tests
use ss_p2p_node_controller.Common.{
  ℕ, zero, suc, ◌+◌, ◌-◌, ◌^◌, ◌%◌, if◌then◌else◌, ltb, List, [], ◌∷◌, ◌++◌, map, Option, none,
  some,
}
use ss_p2p_node_controller.Kademlia.NodeId.{NodeId}
use ss_p2p_node_controller.Kademlia.Node.{KNode, of_endpoint}
use ss_p2p_node_controller.Kademlia.Bucket
use ss_p2p_node_controller.Kademlia.RoutingTable.{RoutingTable, get_bucket}
use ss_p2p_node_controller.Kademlia.RoutingTable.Collect.{collect_node}
use ss_p2p_node_controller.MessagePool.Buffer.{Outcome, done, fault, size_mod}

-- The context: the peers that were picked.
abbrev pub Context : Type 0 → Type 0
Context R = List R

module _ {R : Type 0} where
  unfoldable pub update_context : R → Context R → Context R
  update_context picked_peer c = c ++ picked_peer ∷ []

  unfoldable pub update_context_all : List R → Context R → Context R
  unfolding update_context
  update_context_all [] c = c
  update_context_all (p ∷ ps) c = update_context_all ps (update_context p c)

  unfoldable pub clear_context : Context R → Context R
  clear_context c = []

module _ {E R : Type 0} where
  -- std::transform writes through the begin of an empty vector.
  unfoldable pub convert_peers_to_k_nodes : List R → Outcome (List (KNode E))
  convert_peers_to_k_nodes [] = done []
  convert_peers_to_k_nodes (p ∷ ps) = fault

module _ {E R : Type 0} (ep_to_peer_func : E → R) where
  -- What is done with the nodes that a bucket gives: the first one is picked, and without any the loop
  -- goes on.
  abbrev pub pick :
      Context R → Outcome (Context R × Option R) → List (KNode E) → Outcome (Context R × Option R)
  pick c next [] = next
  pick c next (n ∷ ns) = done (update_context (ep_to_peer_func n.ep) c, some (ep_to_peer_func n.ep))

  abbrev pub pick_from :
      Context R
      → Outcome (Context R × Option R)
      → Bucket.Bucket E
      → Outcome (List (KNode E))
      → Outcome (Context R × Option R)
  pick_from c next b fault = fault
  pick_from c next b (done ignore_k_nodes) = pick c next (Bucket.get_node_front 1 ignore_k_nodes b)

  -- The loop over the shuffled indices, which are taken for branches.
  unfoldable pub search : List ℕ → RoutingTable E → Context R → Outcome (Context R × Option R)
  unfolding Bucket.get_node_count Bucket.get_node_front convert_peers_to_k_nodes update_context
  search [] t c = done (c, none)
  search (i ∷ is) t c =
      let next = search is t c in
      let b = get_bucket t i in
      if ltb 0 (Bucket.get_node_count b)
      then pick_from c next b (convert_peers_to_k_nodes c)
      else next

  unfoldable pub get_random : List ℕ → RoutingTable E → Context R → Outcome (Context R × Option R)
  unfolding search
  get_random bucket_indexes t c = search bucket_indexes t c

module _ {E R : Type 0} (calc_node_id : E → NodeId) (ep_of_peer : R → E)
    (ep_to_peer_func : E → R) where
  -- The peers of the collected nodes are written from the begin of `ret` on, which has one element.
  abbrev pub transform : R → List R → Outcome (List R)
  transform ret_peer [] = done (ret_peer ∷ [])
  transform ret_peer (p ∷ []) = done (p ∷ [])
  transform ret_peer (p ∷ q ∷ ps) = fault

  -- `collect_node_total` rules out that the search does not end.
  abbrev pub collected : R → Option (List (KNode E)) → Outcome (List R)
  collected ret_peer none = fault
  collected ret_peer (some ns) = transform ret_peer (map (λ n. ep_to_peer_func n.ep) ns)

  -- Past the early return; a null peer is dereferenced.
  abbrev pub collect_more :
      ℕ → RoutingTable E → Option R → Outcome (List (KNode E)) → Outcome (List R)
  collect_more n t ret_peer fault = fault
  collect_more n t none (done ignore_k_nodes) = fault
  collect_more n t (some p) (done ignore_k_nodes) = collected p (
      collect_node (of_endpoint calc_node_id (ep_of_peer p)) ((n + size_mod - 1) % size_mod)
        ignore_k_nodes t)

  abbrev pub with_null : Outcome (List R) → Outcome (List (Option R))
  with_null fault = fault
  with_null (done ps) = done (map some ps)

  abbrev pub with_context :
      Context R → Outcome (List (Option R)) → Outcome (Context R × List (Option R))
  with_context c fault = fault
  with_context c (done ps) = done (c, ps)

  abbrev pub targets :
      ℕ → RoutingTable E → Outcome (Context R × Option R) → Outcome (Context R × List (Option R))
  targets n t fault = fault
  targets n t (done (c, ret_peer)) =
      if ltb 1 n
      then done (c, ret_peer ∷ [])
      else with_context c (with_null (collect_more n t ret_peer (convert_peers_to_k_nodes c)))

  -- A null peer is `none`.
  unfoldable pub get_multicast_target :
      List ℕ → ℕ → RoutingTable E → Context R → Outcome (Context R × List (Option R))
  unfolding get_random convert_peers_to_k_nodes collect_node
  get_multicast_target bucket_indexes n t c =
      targets n t (get_random ep_to_peer_func bucket_indexes t c)
