-- ===== src/Kademlia/Bucket.antt =====
-- src/ss_p2p/kademlia/k_bucket.cpp and include/ss_p2p/kademlia/k_bucket.hpp: a bucket of at most
-- four nodes, the least recently seen one first. A bucket is its vector `_nodes`.
pub mod Locate
pub mod Invariant
pub mod Members
pub mod Select
use ss_p2p_node_controller.Common.{
  ℕ, suc, ◌+◌, Bool, true, false, ◌≡◌, if◌then◌else◌, leb, ite, List, [], ◌∷◌, ◌++◌, reverse,
  length, Option, none, some,
}
use ss_p2p_node_controller.Kademlia.NodeId.{NodeId, eq_id}
use ss_p2p_node_controller.Kademlia.Node.{KNode}

abbrev pub default_k : ℕ
default_k = 4

abbrev pub Bucket : Type 0 → Type 0
Bucket E = List (KNode E)

pub data UpdateState : Type 0 where
  added_back moved_back not_found overflow error : UpdateState

-- An iterator into the vector: the nodes before it, the node that it points to, those after it.
pub record Position (E : Type 0) : Type 0 where
  pub before : List (KNode E)
  pub node : KNode E
  pub after : List (KNode E)

module _ {E : Type 0} where
  abbrev pub step_back : KNode E → Option (Position E) → Option (Position E)
  step_back n none = none
  step_back n (some p) = some (record p { before = n ∷ p.before })

  -- `std::find` and `std::find_if` by the equality of nodes: the first node with the id, and
  -- `none` for the end iterator.
  unfoldable pub find : NodeId → List (KNode E) → Option (Position E)
  find id [] = none
  find id (n ∷ ns) =
      ite (eq_id n.id id) (some (record { before = []; node = n; after = ns }))
        (step_back n (find id ns))

  -- `find_if( … ) != end()`.
  unfoldable pub contains : NodeId → List (KNode E) → Bool
  contains id [] = false
  contains id (n ∷ ns) = ite (eq_id n.id id) true (contains id ns)

  unfoldable pub is_exist : KNode E → Bucket E → Bool
  unfolding contains
  is_exist kn nodes = contains kn.id nodes

  unfoldable pub is_full : Bucket E → Bool
  is_full nodes = leb default_k (length nodes)

  unfoldable pub get_node_count : Bucket E → ℕ
  get_node_count nodes = length nodes

  unfoldable pub add_back : KNode E → Bucket E → Bucket E
  unfolding is_full is_exist
  add_back kn nodes =
      if is_full nodes then nodes else if is_exist kn nodes then nodes else nodes ++ kn ∷ []

  -- The stored node goes to the back, not the argument.
  unfoldable pub move_back : KNode E → Bucket E → Bucket E
  unfolding find
  move_back kn nodes = elim (find kn.id nodes) [
    | none ↦ nodes
    | some p ↦ (p.before ++ p.after) ++ p.node ∷ []
  ]

  unfoldable pub delete_node : KNode E → Bucket E → Bucket E
  unfolding find
  delete_node kn nodes = elim (find kn.id nodes) [ none ↦ nodes | some p ↦ p.before ++ p.after ]

  -- The new node takes the place of the old one.
  unfoldable pub swap_node : KNode E → KNode E → Bucket E → Bucket E
  unfolding find
  swap_node node_src node_dest nodes = elim (find node_src.id nodes) [
    | none ↦ nodes
    | some p ↦ elim (find node_dest.id nodes) [
      | none ↦ p.before ++ node_dest ∷ p.after
      | some q ↦ nodes
    ]
  ]

  unfoldable pub auto_update : KNode E → Bucket E → Bucket E × UpdateState
  unfolding is_exist is_full move_back add_back
  auto_update kn nodes =
      if is_exist kn nodes
      then (move_back kn nodes, moved_back)
      else if is_full nodes
      then (nodes, overflow)
      else (add_back kn nodes, added_back)

  -- The loop of `get_node_front` and `get_node_back`: the count is tested only after a node has
  -- been pushed.
  unfoldable pub collect_loop :
      ℕ → List (KNode E) → List (KNode E) → List (KNode E) → List (KNode E)
  unfolding contains
  collect_loop count ignore_nodes ret [] = ret
  collect_loop count ignore_nodes ret (n ∷ ns) =
      let skip = collect_loop count ignore_nodes ret ns in
      let pushed = ret ++ n ∷ [] in
      let next = collect_loop count ignore_nodes pushed ns in
      if contains n.id ignore_nodes
      then skip
      else if leb count (length pushed)
      then pushed
      else next

  unfoldable pub get_node_front : ℕ → List (KNode E) → Bucket E → List (KNode E)
  unfolding collect_loop
  get_node_front count ignore_nodes nodes = collect_loop count ignore_nodes [] nodes

  unfoldable pub get_node_back : ℕ → List (KNode E) → Bucket E → List (KNode E)
  unfolding collect_loop
  get_node_back count ignore_nodes nodes = collect_loop count ignore_nodes [] (reverse nodes)

  -- `get_nodes`: a copy of the vector.
  unfoldable pub get_nodes : Bucket E → List (KNode E)
  get_nodes nodes = nodes
