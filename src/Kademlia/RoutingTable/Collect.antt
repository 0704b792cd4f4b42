-- ===== src/Kademlia/RoutingTable/Collect.antt =====
-- collect_node of src/ss_p2p/kademlia/k_routing_table.cpp: it starts at the bucket of a node and
-- goes on to the neighbours on both sides until it has enough nodes or no bucket is left.
pub mod Bounds
pub mod Cover
pub mod Distinct
use ss_p2p_node_controller.Common.{
  ℕ, zero, suc, ◌+◌, ◌-◌, Bool, true, false, not, ◌&&◌, if◌then◌else◌, ltb, leb, List, [], ◌++◌,
  length, Option, none, some,
}
use ss_p2p_node_controller.Kademlia.Node.{KNode}
use ss_p2p_node_controller.Kademlia.Bucket
use ss_p2p_node_controller.Kademlia.RoutingTable.{RoutingTable, get_bucket, calc_branch}

-- The local variables of the loop.
pub record Search (E : Type 0) : Type 0 where
  pub ret : List (KNode E)
  pub upper_flag : Bool
  pub lower_flag : Bool
  pub count : ℕ

-- With `count` at most 161 and a branch at most 160, this many rounds are always enough.
abbrev pub max_rounds : ℕ
max_rounds = 162

module _ {E : Type 0} (t : RoutingTable E) (root_branch max_count : ℕ)
    (ignore_nodes : List (KNode E)) where
  -- Appends what a branch's bucket has, up to the number of nodes that remain.
  unfoldable pub visit : ℕ → List (KNode E) → List (KNode E)
  visit branch ret =
      ret ++ Bucket.get_node_back (max_count - length ret) ignore_nodes (get_bucket t branch)

  -- `(root_branch - count) >= 1` on signed integers is `count + 1 <= root_branch`.
  unfoldable pub upper : Search E → Search E
  upper s =
      if leb (s.count + 1) root_branch
      then record s { ret = visit (root_branch - s.count) s.ret }
      else record s { upper_flag = true }

  unfoldable pub lower : Search E → Search E
  lower s =
      if leb (root_branch + s.count) 160
      then record s { ret = visit (root_branch + s.count) s.ret }
      else record s { lower_flag = true }

  -- One round of the loop.
  unfoldable pub round : Search E → Search E
  round s = let s' = lower (upper s) in record s' { count = s'.count + 1 }

  -- The condition of the loop.
  unfoldable pub goes_on : Search E → Bool
  goes_on s = ltb (length s.ret) max_count && not (s.upper_flag && s.lower_flag)

  -- `none` when the rounds run out.
  unfoldable pub search : ℕ → Search E → Option (List (KNode E))
  search zero s = none
  search (suc rounds) s =
      let rest = search rounds (round s) in if goes_on s then rest else some s.ret

  unfoldable pub start : Search E
  start = record { ret = visit root_branch []; upper_flag = false; lower_flag = false; count = 1 }

-- The bounds and the condition of the loop make the rounds suffice: `Bounds` has the theorem.
unfoldable pub collect_node :
    {E : Type 0} → KNode E → ℕ → List (KNode E) → RoutingTable E → Option (List (KNode E))
collect_node root_node max_count ignore_nodes t =
    let root_branch = calc_branch t.self_id root_node.id in
    search t root_branch max_count ignore_nodes max_rounds
      (start t root_branch max_count ignore_nodes)
