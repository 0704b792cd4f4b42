-- ===== src/Ice/Tests.antt =====
-- The theorems on src/ss_p2p/ice_agent at concrete inputs: endpoints are numbers, and 0 is the
-- loopback address. `sort` is an insertion sort by descending count.
use mathlib.Core.List.{not-mem-nil, eq-or-mem_of_mem-cons}
use mathlib.Core.List.Perm
use mathlib.Core.Logic.Or
use native.Mathlib.Bridge.{le_prop}
use ss_p2p_node_controller.Common.{
  ℕ, ◌≤◌, ◌<◌, Bool, false, if◌then◌else◌, leb, ◌==◌, leb→le, not_leb→lt, Bool-cases, inl, inr, ◌≡◌,
  refl, ap, List, [], ◌∷◌, length, Mem, Perm, Option, none, some, ℕ_discrete, arith,
}
use ss_p2p_node_controller.Ice.Reservation
use ss_p2p_node_controller.Ice.Reservation.{waits, sync_get, new_sr}
use ss_p2p_node_controller.Ice.Binding.{
  done, init, valid_eps, global_ep_consensus, income_message, add_requested_ep, on_timeout,
}
use ss_p2p_node_controller.Ice.Binding.Tally.{SortsByCount, occurrences}
use ss_p2p_node_controller.Ice.Binding.Consensus.{consensus-winner}
use ss_p2p_node_controller.Ice.Binding.Events
use ss_p2p_node_controller.Ice.Binding.Events.{
  Event, requests, answers, times_out, asks_async, run, run-calls,
}
use ss_p2p_node_controller.Kademlia.NodeId.{NodeId}
use ss_p2p_node_controller.Kademlia.RoutingTable
use ss_p2p_node_controller.Kademlia.RoutingTable.{RoutingTable}
use ss_p2p_node_controller.Kademlia.RoutingTable.Placement.{IsWellFormed, init-IsWellFormed}
use ss_p2p_node_controller.Kademlia.DirectController.{auto_update_batch}
use ss_p2p_node_controller.Kademlia.DirectController.Laws.{
  Owned, init-Owned, auto_update_batch-IsWellFormed,
}

abbrev insert_count : ℕ × ℕ → List (ℕ × ℕ) → List (ℕ × ℕ)
insert_count x [] = x ∷ []
insert_count x (y ∷ ys) = if leb y.1 x.1 then x ∷ y ∷ ys else y ∷ insert_count x ys

abbrev sort : List (ℕ × ℕ) → List (ℕ × ℕ)
sort [] = []
sort (x ∷ xs) = insert_count x (sort xs)

insert_count-perm : (x : ℕ × ℕ) (ys : List (ℕ × ℕ)) → Perm (insert_count x ys) (x ∷ ys)
insert_count-perm x [] = Perm.refl _
insert_count-perm x (y ∷ ys) = elim (Bool-cases (leb y.1 x.1)) [
  | inl e ↦ rw e (Perm.refl _)
  | inr e ↦ rw e (Perm.trans (Perm.cons y (insert_count-perm x ys)) (Perm.swap x y ys))
]

sort-perm : (xs : List (ℕ × ℕ)) → Perm (sort xs) xs
sort-perm [] = Perm.refl _
sort-perm (x ∷ xs) = Perm.trans (insert_count-perm x (sort xs)) (Perm.cons x (sort-perm xs))

-- No count is higher than the bound.
abbrev Below : ℕ → List (ℕ × ℕ) → Type 0
Below n [] = Unit
Below n (x ∷ xs) = (x.1 ≤ n) × Below n xs

abbrev Descends : List (ℕ × ℕ) → Type 0
Descends [] = Unit
Descends (x ∷ xs) = Below x.1 xs × Descends xs

Below-le : (n m : ℕ) (xs : List (ℕ × ℕ)) → n ≤ m → Below n xs → Below m xs
Below-le n m [] h b = tt
Below-le n m (x ∷ xs) h b = (omega (arith, b.0), Below-le n m xs h b.1)

Below-insert_count :
    (n : ℕ) (x : ℕ × ℕ) (ys : List (ℕ × ℕ)) → x.1 ≤ n → Below n ys → Below n (insert_count x ys)
Below-insert_count n x [] h b = (h, tt)
Below-insert_count n x (y ∷ ys) h b = elim (Bool-cases (leb y.1 x.1)) [
  | inl e ↦ rw e (h, b)
  | inr e ↦ rw e (b.0, Below-insert_count n x ys h b.1)
]

Descends-insert_count : (x : ℕ × ℕ) (ys : List (ℕ × ℕ)) → Descends ys → Descends (insert_count x ys)
Descends-insert_count x [] d = (tt, tt)
Descends-insert_count x (y ∷ ys) d = elim (Bool-cases (leb y.1 x.1)) [
  | inl e ↦ let le : y.1 ≤ x.1 = leb→le _ _ e in rw e ((le, Below-le y.1 x.1 ys le d.0), d)
  | inr e ↦
      let lt : x.1 < y.1 = not_leb→lt _ _ e in
      rw e (Below-insert_count y.1 x ys (omega arith) d.0, Descends-insert_count x ys d.1)
]

sort-Descends : (xs : List (ℕ × ℕ)) → Descends (sort xs)
sort-Descends [] = tt
sort-Descends (x ∷ xs) = Descends-insert_count x (sort xs) (sort-Descends xs)

Below-mem : (n : ℕ) (xs : List (ℕ × ℕ)) (y : ℕ × ℕ) → Below n xs → Mem y xs → y.1 ≤ n
Below-mem n [] y b m = absurd (not-mem-nil m)
Below-mem n (x ∷ xs) y b m =
    Or.elim le_prop (eq-or-mem_of_mem-cons m)
      (λ here. omega (arith, b.0, ap (λ (z : ℕ × ℕ). z.1) here)) (Below-mem n xs y b.1)

sort-SortsByCount : SortsByCount sort
sort-SortsByCount = record {
  permutes = sort-perm;
  descends = λ m x xs e y i. Below-mem x.1 xs y ((rw e at (sort-Descends m)).0) i;
}

abbrev is_loopback : ℕ → Bool
is_loopback ep = ep == 0

-- Nodes 1 to 4 were asked; 1 and 2 saw endpoint 9, and 3 saw the loopback address.
abbrev asked_four : List (ℕ × Option ℕ)
asked_four = (1, some 9) ∷ (2, some 9) ∷ (3, some 0) ∷ (4, none) ∷ []

four_done : (global_ep_consensus is_loopback ℕ_discrete sort false asked_four).state ≡ done
unfolding global_ep_consensus
four_done = refl

consensus-winner_example :
    (ep : ℕ) × ((global_ep_consensus is_loopback ℕ_discrete sort false asked_four).ep ≡ some ep)
    × (0 < occurrences ℕ_discrete ep (valid_eps is_loopback asked_four))
    × ((other : ℕ)
        → occurrences ℕ_discrete other (valid_eps is_loopback asked_four)
          ≤ occurrences ℕ_discrete ep (valid_eps is_loopback asked_four))
consensus-winner_example =
    consensus-winner is_loopback ℕ_discrete sort false asked_four sort-SortsByCount (omega arith)
      four_done

abbrev events : List (Event ℕ)
events =
    requests 1
    ∷ requests 2
    ∷ asks_async
    ∷ answers 1 (some 9)
    ∷ answers 2 (some 9)
    ∷ times_out
    ∷ answers 2 (some 9)
    ∷ []

-- The answers end the vote, and the handler is called once.
events_test : (run is_loopback ℕ_discrete sort (init (new_sr 0)) events).1 ≡ some 9 ∷ []
unfolding run ℕ_discrete Events.step income_message add_requested_ep init Reservation.async_get
    on_timeout new_sr
events_test = refl

run-calls_example :
    (length (run is_loopback ℕ_discrete sort (init (new_sr 0)) events).1 ≤ 1)
    × (sync_get (run is_loopback ℕ_discrete sort (init (new_sr 0)) events).0.sr ≡ waits)
run-calls_example = run-calls is_loopback ℕ_discrete sort (new_sr 0) events

-- An endpoint's id has the endpoint as its first byte.
abbrev id_of : ℕ → NodeId
id_of n = n ∷ 0 ∷ 0 ∷ 0 ∷ 0 ∷ 0 ∷ 0 ∷ 0 ∷ 0 ∷ 0 ∷ 0 ∷ 0 ∷ 0 ∷ 0 ∷ 0 ∷ 0 ∷ 0 ∷ 0 ∷ 0 ∷ 0 ∷ []

abbrev table : RoutingTable ℕ
table = auto_update_batch id_of (1 ∷ 2 ∷ 3 ∷ []) (RoutingTable.init (id_of 0))

table-IsWellFormed : IsWellFormed table × Owned id_of table
table-IsWellFormed =
    auto_update_batch-IsWellFormed id_of (1 ∷ 2 ∷ 3 ∷ []) (RoutingTable.init (id_of 0))
      (init-IsWellFormed (id_of 0)) (init-Owned id_of (id_of 0))
