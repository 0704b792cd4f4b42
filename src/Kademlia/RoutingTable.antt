-- ===== src/Kademlia/RoutingTable.antt =====
-- src/ss_p2p/kademlia/k_routing_table.cpp and include/ss_p2p/kademlia/k_routing_table.hpp: 160
-- buckets, indexed by how far the id of a node shares its prefix with the id of this node.
-- The search collect_node and the bucket iterator have child modules of their own.
pub mod Collect
pub mod Iterator
pub mod Placement
pub mod Count
use ss_p2p_node_controller.Common.{
  ℕ, zero, suc, ◌+◌, ◌*◌, ◌-◌, ◌<◌, Bool, ◌≡◌, List, [], ◌∷◌, length, get_or, set,
}
use ss_p2p_node_controller.Kademlia.NodeId.{NodeId, calc_node_xor_distance, k_node_id_length}
use ss_p2p_node_controller.Kademlia.Node.{KNode}
use ss_p2p_node_controller.Kademlia.Bucket
use ss_p2p_node_controller.Kademlia.Bucket.{Bucket, UpdateState}

abbrev pub k_bucket_count : ℕ
k_bucket_count = 160

pub record RoutingTable (E : Type 0) : Type 0 where
  pub table : List (Bucket E)
  pub self_id : NodeId

-- A `std::array` of buckets, each value-initialised by `k_bucket::k_bucket`.
empty_buckets : {E : Type 0} → ℕ → List (Bucket E)
empty_buckets zero = []
empty_buckets (suc n) = [] ∷ empty_buckets n

-- The constructor.
unfoldable pub init : {E : Type 0} → NodeId → RoutingTable E
unfolding empty_buckets
init self_id = record { table = empty_buckets k_bucket_count; self_id = self_id }

-- `_table[i]`; `Placement` shows that the indices that are computed stay below 160.
abbrev pub bucket_at : {E : Type 0} → RoutingTable E → ℕ → Bucket E
bucket_at t i = get_or t.table i []

abbrev pub set_bucket : {E : Type 0} → RoutingTable E → ℕ → Bucket E → RoutingTable E
set_bucket t i b = record t { table = set t.table i b }

-- The prefix length is at most 160, so the difference does not wrap.
unfoldable pub calc_branch : NodeId → NodeId → ℕ
calc_branch self_id id = k_node_id_length * 8 - calc_node_xor_distance self_id id

-- `std::max( branch - 1, 0 )` is the subtraction that stops at 0.
unfoldable pub calc_branch_index : NodeId → NodeId → ℕ
unfolding calc_branch
calc_branch_index self_id id = calc_branch self_id id - 1

module _ {E : Type 0} where
  -- `get_bucket( k_node& )` gives the bucket with this index.
  abbrev pub index_of : RoutingTable E → KNode E → ℕ
  index_of t kn = calc_branch_index t.self_id kn.id

  -- `get_bucket( unsigned short branch )`.
  abbrev pub get_bucket : RoutingTable E → ℕ → Bucket E
  get_bucket t branch = bucket_at t (branch - 1)

  unfoldable pub auto_update : KNode E → RoutingTable E → RoutingTable E × UpdateState
  auto_update kn t =
      let (b, state) = Bucket.auto_update kn (bucket_at t (index_of t kn)) in
      (set_bucket t (index_of t kn) b, state)

  -- The bucket is the one of the node that leaves.
  unfoldable pub swap_node : KNode E → KNode E → RoutingTable E → RoutingTable E
  swap_node node_src node_dest t =
      set_bucket t (index_of t node_src)
        (Bucket.swap_node node_src node_dest (bucket_at t (index_of t node_src)))

  -- What connection_maintainer binds to a ping: a call on the bucket itself.
  unfoldable pub move_back_at : ℕ → KNode E → RoutingTable E → RoutingTable E
  move_back_at i kn t = set_bucket t i (Bucket.move_back kn (bucket_at t i))

  unfoldable pub delete_node_at : ℕ → KNode E → RoutingTable E → RoutingTable E
  delete_node_at i kn t = set_bucket t i (Bucket.delete_node kn (bucket_at t i))

  unfoldable pub is_exist : KNode E → RoutingTable E → Bool
  is_exist kn t = Bucket.is_exist kn (bucket_at t (index_of t kn))

  unfoldable pub get_node_front : KNode E → ℕ → List (KNode E) → RoutingTable E → List (KNode E)
  get_node_front root_node count ignore_nodes t =
      Bucket.get_node_front count ignore_nodes (bucket_at t (index_of t root_node))

  unfoldable pub get_node_back : KNode E → ℕ → List (KNode E) → RoutingTable E → List (KNode E)
  get_node_back root_node count ignore_nodes t =
      Bucket.get_node_back count ignore_nodes (bucket_at t (index_of t root_node))

  -- The range-for of get_node_count; the sum of at most 160 sizes of at most 4 does not wrap.
  unfoldable pub count_nodes : ℕ → List (Bucket E) → ℕ
  count_nodes ret [] = ret
  count_nodes ret (b ∷ bs) = count_nodes (ret + Bucket.get_node_count b) bs

  unfoldable pub get_node_count : RoutingTable E → ℕ
  unfolding count_nodes
  get_node_count t = count_nodes 0 t.table
