-- ===== src/Multicast/Tests.antt =====
-- multicast_manager at a concrete input: a node that knows one other.
use mathlib.Core.List.{mem-cons_self, mem-cons_of_mem, eq-or-mem_of_mem-cons, not-mem-nil}
use mathlib.Core.Logic.Or
use native.Mathlib.Bridge.{le_prop}
use native.Mathlib.Decide.{dec_lt}
use ss_p2p_node_controller.Common.{ℕ, zero, suc, ◌<◌, ◌≡◌, List, [], ◌∷◌, Mem, arith}
use ss_p2p_node_controller.Kademlia.NodeId.{NodeId}
use ss_p2p_node_controller.Kademlia.RoutingTable
use ss_p2p_node_controller.Kademlia.RoutingTable.{RoutingTable}
use ss_p2p_node_controller.Kademlia.DirectController.{auto_update_batch}
use ss_p2p_node_controller.Multicast.{get_multicast_target}
use ss_p2p_node_controller.Multicast.Laws.{Targets, get_multicast_target-Targets}

unfoldable upto : ℕ → List ℕ
upto zero = []
upto (suc n) = n ∷ upto n

lt_of_mem-upto : (n i : ℕ) → Mem i (upto n) → i < n
unfolding upto
lt_of_mem-upto zero i m = absurd (not-mem-nil m)
lt_of_mem-upto (suc n) i m =
    Or.elim le_prop (eq-or-mem_of_mem-cons m) (λ e. rw e (omega arith))
      (λ later. omega (arith, lt_of_mem-upto n i later))

mem-upto_of_lt : (n i : ℕ) → i < n → Mem i (upto n)
unfolding upto
mem-upto_of_lt zero i h = absurd (omega arith)
mem-upto_of_lt (suc n) i h = elim (dec_lt i n) [
  | yes below ↦ mem-cons_of_mem n (mem-upto_of_lt n i below)
  | no last ↦ let e : i ≡ n = omega arith in rw e mem-cons_self
]

-- An endpoint's id has the endpoint as its first byte.
abbrev id_with : ℕ → NodeId
id_with n = n ∷ 0 ∷ 0 ∷ 0 ∷ 0 ∷ 0 ∷ 0 ∷ 0 ∷ 0 ∷ 0 ∷ 0 ∷ 0 ∷ 0 ∷ 0 ∷ 0 ∷ 0 ∷ 0 ∷ 0 ∷ 0 ∷ 0 ∷ []

abbrev known : RoutingTable ℕ
known = auto_update_batch id_with (8 ∷ []) (RoutingTable.init (id_with 4))

abbrev same_ep : ℕ → ℕ
same_ep ep = ep

get_multicast_target-Targets_example :
    Targets same_ep 3 known (get_multicast_target id_with same_ep same_ep (upto 160) 3 known [])
get_multicast_target-Targets_example =
    get_multicast_target-Targets id_with same_ep same_ep (upto 160) 3 known
      (λ i. (lt_of_mem-upto 160 i, mem-upto_of_lt 160 i))
