-- ===== src/Multicast/Laws.antt =====
-- Which peers multicast_manager of src/ss_p2p/multicast_manager.cpp picks.
use mathlib.Core.List.{mem-cons_self, mem-cons_of_mem, eq-or-mem_of_mem-cons, not-mem-nil}
use mathlib.Core.Logic.Or
use native.Mathlib.Bridge.{le_prop}
use ss_p2p_node_controller.Common.{
  ℕ, suc, ◌+◌, ◌-◌, ◌≤◌, ◌<◌, ◌≡◌, refl, ◌⊎◌, ◌↔◌, inl, inr, ltb, true, false, List, [], ◌∷◌, Mem,
  length, Option, none, some, arith,
}
use ss_p2p_node_controller.Kademlia.NodeId.{NodeId}
use ss_p2p_node_controller.Kademlia.Node.{KNode}
use ss_p2p_node_controller.Kademlia.Bucket
use ss_p2p_node_controller.Kademlia.Bucket.{collect_loop, contains}
use ss_p2p_node_controller.Kademlia.RoutingTable.{RoutingTable, bucket_at, get_bucket}
use ss_p2p_node_controller.MessagePool.Buffer.{Outcome, done, fault}
use ss_p2p_node_controller.Multicast.{
  Context, update_context, convert_peers_to_k_nodes, search, get_random, get_multicast_target,
}

module _ {E R : Type 0} (ep_to_peer_func : E → R) where
  -- What the loop finds in a context without peers: nothing, if the buckets of all the branches are empty,
  -- or the peer of the front node of one of the buckets, which joins the context.
  pub data Found (is : List ℕ) (t : RoutingTable E) (r : Outcome (Context R × Option R))
      : Type 0 where
    nothing_there :
        ((i : ℕ) → Mem i is → length (get_bucket t i) ≤ 0) → r ≡ done ([], none) → Found is t r
    picked :
        (i : ℕ) (x : KNode E) (rest : List (KNode E))
        → Mem i is
        → get_bucket t i ≡ x ∷ rest
        → r ≡ done (ep_to_peer_func x.ep ∷ [], some (ep_to_peer_func x.ep))
        → Found is t r

  Found-later :
      (i : ℕ) (is : List ℕ) (t : RoutingTable E) (r : Outcome (Context R × Option R))
      → length (get_bucket t i) ≤ 0
      → Found is t r
      → Found (i ∷ is) t r
  Found-later i is t r empty (nothing_there none_in e) =
      nothing_there
        (λ j m. Or.elim le_prop (eq-or-mem_of_mem-cons m) (λ here. rw here empty) (none_in j)) e
  Found-later i is t r empty (picked j x rest m at_j e) =
      picked j x rest (mem-cons_of_mem i m) at_j e

  search_empty :
      (i : ℕ) (is : List ℕ) (t : RoutingTable E)
      → get_bucket t i ≡ []
      → search ep_to_peer_func (i ∷ is) t [] ≡ search ep_to_peer_func is t []
  unfolding search Bucket.get_node_count
  search_empty i is t e = rw e refl

  search_first :
      (i : ℕ) (is : List ℕ) (t : RoutingTable E) (x : KNode E) (b : List (KNode E))
      → get_bucket t i ≡ x ∷ b
      → search ep_to_peer_func (i ∷ is) t []
        ≡ done (ep_to_peer_func x.ep ∷ [], some (ep_to_peer_func x.ep))
  unfolding search Bucket.get_node_count Bucket.get_node_front collect_loop contains
      convert_peers_to_k_nodes update_context
  search_first i is t x b e =
      let some_there : ltb 0 (suc (length b)) ≡ true = ground arith in rw (e, some_there) refl

  search-Found : (is : List ℕ) (t : RoutingTable E) → Found is t (search ep_to_peer_func is t [])
  search-Found [] t = nothing_there (λ i m. absurd (not-mem-nil m)) (unfold search in refl)
  search-Found (i ∷ is) t = go (get_bucket t i) refl (search-Found is t)
    where
      go :
          (b : Bucket.Bucket E)
          → get_bucket t i ≡ b
          → Found is t (search ep_to_peer_func is t [])
          → Found (i ∷ is) t (search ep_to_peer_func (i ∷ is) t [])
      go [] e ih = Found-later i is t _ (rw e (omega arith)) (rw (search_empty i is t e) ih)
      go (x ∷ b) e ih = picked i x b mem-cons_self e (search_first i is t x b e)

  -- For one peer, or none, undefined behaviour. For more, one peer: that of the front node of a bucket with
  -- an index below 159, or a null pointer if all these buckets are empty.
  abbrev pub Targets : ℕ → RoutingTable E → Outcome (Context R × List (Option R)) → Type 0
  Targets n t r =
      (n ≤ 1 → r ≡ fault)
      × (1 < n
          → (((i : ℕ) → i < 159 → length (bucket_at t i) ≤ 0) × (r ≡ done ([], none ∷ [])))
            ⊎ ((i : ℕ) × (x : KNode E) × (rest : List (KNode E)) × (i < 159)
                × (bucket_at t i ≡ x ∷ rest)
                × (r ≡ done (ep_to_peer_func x.ep ∷ [], some (ep_to_peer_func x.ep) ∷ []))))

module _ {E R : Type 0} (calc_node_id : E → NodeId) (ep_of_peer : R → E)
    (ep_to_peer_func : E → R) where
  -- What a multicast manager answers whose context is empty, when the shuffle leaves each index from 0 to
  -- 159 in the list and no other. For more than one peer it gives a single one, of the front node of a
  -- bucket with an index below 159, or a null pointer if all these buckets are empty: the last bucket is
  -- never looked at. For one peer, or none, it always runs into undefined behaviour.
  pub get_multicast_target-Targets :
      (is : List ℕ) (n : ℕ) (t : RoutingTable E)
      → ((i : ℕ) → Mem i is ↔ (i < 160))
      → Targets ep_to_peer_func n t
          (get_multicast_target calc_node_id ep_of_peer ep_to_peer_func is n t [])
  unfolding get_multicast_target get_random convert_peers_to_k_nodes
  get_multicast_target-Targets is n t all = go (search-Found ep_to_peer_func is t)
    where
      go :
          Found ep_to_peer_func is t (search ep_to_peer_func is t [])
          → Targets ep_to_peer_func n t
              (get_multicast_target calc_node_id ep_of_peer ep_to_peer_func is n t [])
      go (nothing_there empty e) = rw e (
        (λ few. let test : ltb 1 n ≡ false = ground arith in rw test refl),
        (λ many.
            let test : ltb 1 n ≡ true = ground arith in
            inl (
              λ i lt.
                  (let same : i + 1 - 1 ≡ i = omega arith in
                    rw same at (empty (i + 1) ((all (i + 1)).1 (omega arith)))),
              rw test refl,
            )),
      )
      go (picked i x rest m at_i e) = rw e (
        (λ few. let test : ltb 1 n ≡ false = ground arith in rw test refl),
        (λ many.
            let test : ltb 1 n ≡ true = ground arith in
            inr (i - 1, x, rest, omega (arith, (all i).0 m), at_i, rw test refl)),
      )
