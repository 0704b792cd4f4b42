-- ===== src/Kademlia/RoutingTable/Count.antt =====
-- How many nodes a routing table of src/ss_p2p/kademlia/k_routing_table.cpp holds.
use ss_p2p_node_controller.Common.{
  ℕ, suc, ◌+◌, ◌*◌, ◌≤◌, ◌≡◌, List, [], ◌∷◌, ◌++◌, length, length-append, get_or, arith,
}
use ss_p2p_node_controller.Kademlia.Node.{KNode}
use ss_p2p_node_controller.Kademlia.Bucket
use ss_p2p_node_controller.Kademlia.Bucket.{Bucket}
use ss_p2p_node_controller.Kademlia.RoutingTable.{RoutingTable, count_nodes, get_node_count}
use ss_p2p_node_controller.Kademlia.RoutingTable.Placement.{IsWellFormed}

module _ {E : Type 0} where
  count_nodes_le :
      (ret : ℕ) (bs : List (Bucket E))
      → ((i : ℕ) → length (get_or bs i []) ≤ 4)
      → count_nodes ret bs ≤ ret + 4 * length bs
  unfolding count_nodes Bucket.get_node_count
  count_nodes_le ret [] h = omega arith
  count_nodes_le ret (b ∷ bs) h =
      omega (arith, h 0, count_nodes_le (ret + length b) bs (λ i. h (suc i)))

  -- The nodes of all buckets, in their order.
  abbrev pub all_nodes : List (Bucket E) → List (KNode E)
  all_nodes [] = []
  all_nodes (b ∷ bs) = b ++ all_nodes bs

  count_nodes-all_nodes :
      (ret : ℕ) (bs : List (Bucket E)) → count_nodes ret bs ≡ ret + length (all_nodes bs)
  unfolding count_nodes Bucket.get_node_count
  count_nodes-all_nodes ret [] = omega arith
  count_nodes-all_nodes ret (b ∷ bs) =
      omega (arith, count_nodes-all_nodes (ret + length b) bs, length-append b (all_nodes bs))

  -- On a well-formed routing table get_node_count is the number of the nodes in all its buckets together,
  -- and at most 640, so the sum that it computes in a std::size_t does not wrap.
  pub get_node_count_lem :
      (t : RoutingTable E)
      → IsWellFormed t
      → (get_node_count t ≡ length (all_nodes t.table)) × (get_node_count t ≤ 640)
  unfolding get_node_count
  get_node_count_lem t w = (
    omega (arith, count_nodes-all_nodes 0 t.table),
    omega (arith, w.size, count_nodes_le 0 t.table (λ i. (w.valid i).bounded)),
  )
