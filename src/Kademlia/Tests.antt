-- ===== src/Kademlia/Tests.antt =====
-- The theorems on src/ss_p2p/kademlia/ at concrete inputs: endpoints are numbers, an endpoint's id
-- has the number as its first byte, and this node has the id of zeros.
use mathlib.Core.List.{Nodup-nil}
use ss_p2p_node_controller.Common.{
  ℕ, ◌≤◌, ◌<◌, false, ◌≡◌, ◌≢◌, ◌↔◌, refl, List, [], ◌∷◌, reverse, Mem, Nodup, length, take, some,
  arith,
}
use ss_p2p_node_controller.Kademlia.NodeId.{NodeId, IsId, calc_node_xor_distance, eq_id}
use ss_p2p_node_controller.Kademlia.NodeId.Distance.{SameBits}
use ss_p2p_node_controller.Kademlia.NodeId.Metric.{le-distance_iff}
use ss_p2p_node_controller.Kademlia.Node.{KNode, of_endpoint, ids}
use ss_p2p_node_controller.Kademlia.Bucket
use ss_p2p_node_controller.Kademlia.Bucket.{Bucket, contains, overflow}
use ss_p2p_node_controller.Kademlia.Bucket.Invariant
use ss_p2p_node_controller.Kademlia.Bucket.Invariant.{IsValid, run-IsValid}
use ss_p2p_node_controller.Kademlia.Bucket.Members.{
  SeenLast, auto_update-overflow_iff, auto_update_recency,
}
use ss_p2p_node_controller.Kademlia.Bucket.Select.{wanted, get_node-take}
use ss_p2p_node_controller.Kademlia.RoutingTable
use ss_p2p_node_controller.Kademlia.RoutingTable.{
  RoutingTable, init, bucket_at, index_of, calc_branch,
}
use ss_p2p_node_controller.Kademlia.RoutingTable.Count.{all_nodes, get_node_count_lem}
use ss_p2p_node_controller.Kademlia.RoutingTable.Placement
use ss_p2p_node_controller.Kademlia.RoutingTable.Placement.{
  IsWellFormed, Reach-IsWellFormed, init-IsWellFormed, auto_update-IsWellFormed,
}
use ss_p2p_node_controller.Kademlia.RoutingTable.Collect
use ss_p2p_node_controller.Kademlia.RoutingTable.Collect.{collect_node}
use ss_p2p_node_controller.Kademlia.RoutingTable.Collect.Bounds.{collect_node_total}
use ss_p2p_node_controller.Kademlia.RoutingTable.Collect.Cover.{collect_node_complete}
use ss_p2p_node_controller.Kademlia.RoutingTable.Collect.Distinct.{collect_node-Nodup}
use ss_p2p_node_controller.Kademlia.DirectController
use ss_p2p_node_controller.Kademlia.DirectController.{collect_endpoint}
use ss_p2p_node_controller.Kademlia.DirectController.Laws.{
  auto_update_batch-IsWellFormed, Owned, init-Owned,
}

abbrev id_of : ℕ → NodeId
id_of n = n ∷ 0 ∷ 0 ∷ 0 ∷ 0 ∷ 0 ∷ 0 ∷ 0 ∷ 0 ∷ 0 ∷ 0 ∷ 0 ∷ 0 ∷ 0 ∷ 0 ∷ 0 ∷ 0 ∷ 0 ∷ 0 ∷ 0 ∷ []

abbrev node : ℕ → KNode ℕ
node = of_endpoint id_of

distance_test : calc_node_xor_distance (id_of 5) (id_of 1) ≡ 2
unfolding calc_node_xor_distance
distance_test = refl

le-distance_iff_example :
    (2 ≤ calc_node_xor_distance (id_of 5) (id_of 1)) ↔ SameBits 2 (id_of 5) (id_of 1)
le-distance_iff_example = le-distance_iff 2 (id_of 5) (id_of 1) (omega arith)

id_of-IsId : (n : ℕ) → n < 256 → IsId (id_of n)
id_of-IsId n h = (
  refl,
  (
    h,
    (
      omega arith,
      (
        omega arith,
        (
          omega arith,
          (
            omega arith,
            (
              omega arith,
              (
                omega arith,
                (
                  omega arith,
                  (
                    omega arith,
                    (
                      omega arith,
                      (
                        omega arith,
                        (
                          omega arith,
                          (
                            omega arith,
                            (
                              omega arith,
                              (
                                omega arith,
                                (
                                  omega arith,
                                  (omega arith, (omega arith, (omega arith, (omega arith, tt)))),
                                ),
                              ),
                            ),
                          ),
                        ),
                      ),
                    ),
                  ),
                ),
              ),
            ),
          ),
        ),
      ),
    ),
  ),
)

-- A bucket of three nodes.
abbrev few : Bucket ℕ
few = node 1 ∷ node 2 ∷ node 3 ∷ []

empty-IsValid : IsValid {E = ℕ} []
empty-IsValid = record { bounded = omega arith; distinct = Nodup-nil }

-- The calls that make `few`.
abbrev calls : List (Invariant.Call ℕ)
calls =
    Invariant.updates (node 1)
    ∷ Invariant.updates (node 9)
    ∷ Invariant.adds (node 2)
    ∷ Invariant.updates (node 3)
    ∷ Invariant.deletes (node 9)
    ∷ []

run-IsValid_example : IsValid (Invariant.run [] calls)
run-IsValid_example = run-IsValid calls [] empty-IsValid

run_test : Invariant.run [] calls ≡ few
unfolding Invariant.run Invariant.step Bucket.auto_update Bucket.delete_node eq_id
run_test = refl

few-IsValid : IsValid few
few-IsValid = rw run_test at run-IsValid_example

no_overflow : (Bucket.auto_update (node 1) few).1 ≢ overflow
unfolding Bucket.auto_update eq_id
no_overflow e = absurd cc

auto_update-overflow_iff_example :
    (((Bucket.auto_update (node 7) few).1 ≡ overflow)
      ↔ ((4 ≤ length few) × (¬ Mem (id_of 7) (ids few))))
    × ((Bucket.auto_update (node 7) few).1 ≡ overflow → (Bucket.auto_update (node 7) few).0 ≡ few)
auto_update-overflow_iff_example = auto_update-overflow_iff (node 7) few

auto_update_recency_example : SeenLast (node 1) few (Bucket.auto_update (node 1) few).0
auto_update_recency_example = auto_update_recency (node 1) few few-IsValid no_overflow

get_node-take_example :
    (Bucket.get_node_front 0 (node 1 ∷ []) few ≡ take 1 (wanted (node 1 ∷ []) few))
    × (Bucket.get_node_back 0 (node 1 ∷ []) few ≡ take 1 (wanted (node 1 ∷ []) (reverse few)))
get_node-take_example = get_node-take 0 (node 1 ∷ []) few

-- A routing table that holds node 1 and node 2.
abbrev own_id : NodeId
own_id = id_of 0

abbrev table : RoutingTable ℕ
table = (RoutingTable.auto_update (node 2) (RoutingTable.auto_update (node 1) (init own_id)).0).0

Reach-IsWellFormed_example : IsWellFormed (
    Placement.step
      (Placement.step (init own_id) (Placement.updates (node 1)))
      (Placement.updates (node 2)))
Reach-IsWellFormed_example = Reach-IsWellFormed own_id _ (
    Placement.next (Placement.updates (node 2))
      (Placement.next (Placement.updates (node 1)) Placement.here tt) tt)

table-IsWellFormed : IsWellFormed table
unfolding Placement.step
table-IsWellFormed = Reach-IsWellFormed_example

get_node_count_lem_example :
    (RoutingTable.get_node_count table ≡ length (all_nodes table.table))
    × (RoutingTable.get_node_count table ≤ 640)
get_node_count_lem_example = get_node_count_lem table table-IsWellFormed

table_found : collect_node (node 3) 3 [] table ≡ some (node 1 ∷ node 2 ∷ [])
unfolding collect_node RoutingTable.auto_update RoutingTable.init Bucket.auto_update eq_id
    calc_branch RoutingTable.calc_branch_index calc_node_xor_distance Bucket.get_node_back
    Collect.search Collect.goes_on Collect.start Collect.visit Collect.round Collect.lower
    Collect.upper
table_found = refl

collect_node_total_example :
    (r : List (KNode ℕ)) × (collect_node (node 3) 1 (node 2 ∷ []) table ≡ some r) × (length r ≤ 2)
collect_node_total_example = collect_node_total (node 3) 1 (node 2 ∷ []) table

collect_node_complete_example :
    ((x : KNode ℕ)
      → Mem x (node 1 ∷ node 2 ∷ [])
      → Mem x (bucket_at table (index_of table x)) × (contains {E = ℕ} x.id [] ≡ false))
    × (2 < 3
        → (i : ℕ) (x : KNode ℕ) → Mem x (bucket_at table i)
        → contains {E = ℕ} x.id [] ≡ false
        → Mem x (node 1 ∷ node 2 ∷ []))
collect_node_complete_example =
    collect_node_complete (node 3) 3 [] table (node 1 ∷ node 2 ∷ []) table-IsWellFormed table_found

root_branch : 1 ≤ calc_branch (table).self_id (id_of 3)
unfolding calc_branch calc_node_xor_distance RoutingTable.auto_update RoutingTable.init
root_branch = omega arith

collect_node-Nodup_example : Nodup (ids (node 1 ∷ node 2 ∷ []))
collect_node-Nodup_example =
    collect_node-Nodup (node 3) 3 [] table (node 1 ∷ node 2 ∷ []) table-IsWellFormed root_branch
      table_found

updated-IsWellFormed :
    IsWellFormed (DirectController.auto_update_batch id_of (1 ∷ 2 ∷ []) (init own_id))
    × Owned id_of (DirectController.auto_update_batch id_of (1 ∷ 2 ∷ []) (init own_id))
updated-IsWellFormed =
    auto_update_batch-IsWellFormed id_of (1 ∷ 2 ∷ []) (init own_id) (init-IsWellFormed own_id)
      (init-Owned id_of own_id)

table_own : Owned id_of table
unfolding DirectController.auto_update_batch
table_own = updated-IsWellFormed.1

no_overflow_table : (RoutingTable.auto_update (node 9) table).1 ≢ overflow
unfolding RoutingTable.auto_update RoutingTable.init Bucket.auto_update eq_id
    RoutingTable.calc_branch_index calc_node_xor_distance
no_overflow_table e = absurd cc
