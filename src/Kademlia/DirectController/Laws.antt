-- ===== src/Kademlia/DirectController/Laws.antt =====
-- What a client of src/ss_p2p/kademlia/direct_routing_table_controller.cpp may rely on.
use mathlib.Core.List.{
  Mem-prop, exists_of_mem-map, mem-map_of_mem, mem-append_right, mem-cons_self, not-mem-nil,
}
use mathlib.Core.Logic.Or
use mathlib.Core.Bool.{false≢true}
use mathlib.Core.HLevel.{⊥_prop}
use mathlib.Core.Logic.{∥∥₁_elim}
use ss_p2p_node_controller.Common.{
  ◌⊎◌, set, set-get_or, subst, Bool-cases, false, ◌<◌, ℕ, ◌+◌, ◌≤◌, true, ◌≡◌, ◌≢◌, refl, sym, ap,
  ◌∙◌, inl, inr, List, [], ◌∷◌, ◌++◌, map, Mem, length, length-map, some,
}
use ss_p2p_node_controller.Kademlia.NodeId.{NodeId, NodeId_set}
use ss_p2p_node_controller.Kademlia.Node.{KNode, of_endpoint, ids}
use ss_p2p_node_controller.Kademlia.Bucket
use ss_p2p_node_controller.Kademlia.Bucket.{
  Bucket, contains, UpdateState, added_back, moved_back, not_found, overflow, error,
}
use ss_p2p_node_controller.Kademlia.Bucket.Locate.{contains_of_mem, mem_of_contains}
use ss_p2p_node_controller.Kademlia.Bucket.Members.{
  auto_update_recency, mem-auto_update, mem-move_back, mem-delete_node, auto_update-overflow_iff,
}
use ss_p2p_node_controller.Kademlia.RoutingTable
use ss_p2p_node_controller.Kademlia.RoutingTable.{
  RoutingTable, init, bucket_at, index_of, set_bucket,
}
use ss_p2p_node_controller.Kademlia.RoutingTable.Placement.{
  IsWellFormed, auto_update-IsWellFormed, index-lt, set_bucket-cases, bucket_at-init,
}
use ss_p2p_node_controller.Kademlia.RoutingTable.Collect.Bounds.{collect_node_total}
use ss_p2p_node_controller.Kademlia.RoutingTable.Collect.Cover.{collect_node_complete}
use ss_p2p_node_controller.Kademlia.DirectController.{
  collect_endpoint, is_exist, auto_update, auto_update_batch, nodes_of,
}

module _ {E : Type 0} (calc_node_id : E → NodeId) where
  ids-nodes_of : (eps : List E) → ids (nodes_of calc_node_id eps) ≡ map calc_node_id eps
  ids-nodes_of [] = refl
  ids-nodes_of (ep ∷ eps) = ap (◌∷◌ (calc_node_id ep)) (ids-nodes_of eps)

  -- Every node of the table carries the id of its endpoint.
  abbrev pub Owned : RoutingTable E → Type 0
  Owned t = (i : ℕ) (x : KNode E) → Mem x (bucket_at t i) → x.id ≡ calc_node_id x.ep

  -- The endpoint stands in the table, in the bucket of its id.
  abbrev pub Holds : RoutingTable E → E → Type 0
  Holds t ep = let kn = of_endpoint calc_node_id ep in Mem kn (bucket_at t (index_of t kn))

  -- The id of the endpoint is that of no ignored endpoint.
  abbrev pub Unlike : List E → E → Type 0
  Unlike ignore_eps ep = (ig : E) → Mem ig ignore_eps → calc_node_id ep ≢ calc_node_id ig

  -- What is collected: endpoints of the table, none with the id of an ignored endpoint, and all of them
  -- if they are fewer than max_count.
  pub record Collected (max_count : ℕ) (ignore_eps : List E) (t : RoutingTable E) (eps : List E)
      : Type 0 where
    pub short : length eps ≤ max_count + 1
    pub held : (ep : E) → Mem ep eps → Holds t ep
    pub apart : (ep ig : E) → Mem ep eps → Mem ig ignore_eps → calc_node_id ep ≢ calc_node_id ig
    pub complete :
        length eps < max_count → (ep : E) → Holds t ep → Unlike ignore_eps ep → Mem ep eps

  node_of :
      (t : RoutingTable E) (x : KNode E) (i : ℕ)
      → Owned t
      → Mem x (bucket_at t i)
      → x ≡ of_endpoint calc_node_id x.ep
  node_of t x i own m = ap (λ (k : NodeId). record { ep = x.ep; id = k }) (own i x m)

  Unlike-contains :
      (ep : E) (ignore_eps : List E)
      → Unlike ignore_eps ep
      → contains (calc_node_id ep) (nodes_of calc_node_id ignore_eps) ≡ false
  Unlike-contains ep ignore_eps unlike =
      elim (Bool-cases (contains (calc_node_id ep) (nodes_of calc_node_id ignore_eps))) [
        | inr absent ↦ absent
        | inl present ↦
            let there : Mem (calc_node_id ep) (map calc_node_id ignore_eps) =
              rw (← ids-nodes_of ignore_eps)
                (mem_of_contains (calc_node_id ep) (nodes_of calc_node_id ignore_eps) present) in
            absurd
              (∥∥₁_elim (exists_of_mem-map there) ⊥_prop (λ (ig, m, same). unlike ig m (sym same)))
      ]

  -- collect_endpoint always returns, on a well-formed table whose nodes carry the ids of their endpoints.
  pub collect_endpoint_lem :
      (root_ep : E) (max_count : ℕ) (ignore_eps : List E) (t : RoutingTable E)
      → IsWellFormed t
      → Owned t
      → (eps : List E) × (collect_endpoint calc_node_id root_ep max_count ignore_eps t ≡ some eps)
        × Collected max_count ignore_eps t eps
  unfolding collect_endpoint
  collect_endpoint_lem root_ep max_count ignore_eps t w own =
      let root_node = of_endpoint calc_node_id root_ep in
      let igs = nodes_of calc_node_id ignore_eps in
      let (r, e, short) = collect_node_total root_node max_count igs t in
      let (sound, complete) = collect_node_complete root_node max_count igs t r w e in
      let same_length = length-map (λ (n : KNode E). n.ep) r in
      (
        map (λ n. n.ep) r,
        rw e,
        record {
          short = rw same_length short;
          held = λ ep m. ∥∥₁_elim (exists_of_mem-map m) Mem-prop (λ (x, mx, ex).
              let home = (sound x mx).0 in
              let node : x ≡ of_endpoint calc_node_id ep =
                node_of t x _ own home ∙ ap (of_endpoint calc_node_id) ex in
              subst (λ n. Mem n (bucket_at t (index_of t n))) node home);
          apart = λ ep ig m mi same. ∥∥₁_elim (exists_of_mem-map m) ⊥_prop (λ (x, mx, ex).
              let home = (sound x mx).0 in
              let id_ig : x.id ≡ calc_node_id ig = own _ x home ∙ ap calc_node_id ex ∙ same in
              let present : contains (calc_node_id ig) igs ≡ true =
                contains_of_mem (calc_node_id ig) igs
                  (rw (ids-nodes_of ignore_eps) (mem-map_of_mem calc_node_id mi)) in
              let there : contains x.id igs ≡ true = rw id_ig present in
              false≢true (sym (sound x mx).1 ∙ there));
          complete = λ few ep held unlike.
              let kn = of_endpoint calc_node_id ep in
              mem-map_of_mem (λ (n : KNode E). n.ep)
                (complete (rw same_length at few) (index_of t kn) kn held
                  (Unlike-contains ep ignore_eps unlike));
        },
      )

  pub init-Owned : (self_id : NodeId) → Owned (init self_id)
  init-Owned self_id i x m = absurd (not-mem-nil (rw bucket_at-init at m))

  auto_update-Owned :
      (ep : E) (t : RoutingTable E)
      → IsWellFormed t
      → Owned t
      → Owned (RoutingTable.auto_update (of_endpoint calc_node_id ep) t).0
  unfolding RoutingTable.auto_update
  auto_update-Owned ep t w own j x m =
      let kn = of_endpoint calc_node_id ep in
      let i = index_of t kn in
      elim (set_bucket-cases t i j (Bucket.auto_update kn (bucket_at t i)).0 w (index-lt t kn)) [
        | inl (_, new) ↦
            Or.elim (NodeId_set _ _) (mem-auto_update kn x _ (rw new at m)) (own i x)
              (λ e. ap (λ k. k.id) e ∙ sym (ap (λ k. calc_node_id k.ep) e))
        | inr (_, old) ↦ own j x (rw old at m)
      ]

  -- auto_update_batch keeps a table well formed, and keeps every node under the id of its
  -- endpoint, whatever endpoints it is given.
  pub auto_update_batch-IsWellFormed :
      (eps : List E) (t : RoutingTable E)
      → IsWellFormed t
      → Owned t
      → IsWellFormed (auto_update_batch calc_node_id eps t)
        × Owned (auto_update_batch calc_node_id eps t)
  unfolding auto_update_batch
  auto_update_batch-IsWellFormed [] t w own = (w, own)
  auto_update_batch-IsWellFormed (ep ∷ eps) t w own =
      auto_update_batch-IsWellFormed eps _
        (auto_update-IsWellFormed (of_endpoint calc_node_id ep) t w) (auto_update-Owned ep t w own)

  -- After auto_update of an endpoint on a well-formed table, is_exist finds the endpoint, unless
  -- its bucket overflowed.
  pub is_exist-auto_update :
      (ep : E) (t : RoutingTable E)
      → IsWellFormed t
      → (RoutingTable.auto_update (of_endpoint calc_node_id ep) t).1 ≢ overflow
      → is_exist calc_node_id ep (auto_update calc_node_id ep t) ≡ true
  unfolding is_exist auto_update RoutingTable.is_exist RoutingTable.auto_update Bucket.is_exist
  is_exist-auto_update ep t w h =
      let kn = of_endpoint calc_node_id ep in
      let i = index_of t kn in
      let b = bucket_at t i in
      let (rest, last, form, own, _, _, _) = auto_update_recency kn b (w.valid i) h in
      elim (set_bucket-cases t i i (Bucket.auto_update kn b).0 w (index-lt t kn)) [
        | inl (_, new) ↦
            rw (new, form)
              (contains_of_mem kn.id (rest ++ last ∷ []) (
                rw (← own)
                  (mem-map_of_mem (λ (n : KNode E). n.id) (mem-append_right rest mem-cons_self))))
        | inr (other, _) ↦ absurd (other refl)
      ]

overflow_or_not : (s : UpdateState) → (s ≡ overflow) ⊎ (s ≢ overflow)
overflow_or_not added_back = inr (λ h. cc)
overflow_or_not moved_back = inr (λ h. cc)
overflow_or_not not_found = inr (λ h. cc)
overflow_or_not overflow = inl refl
overflow_or_not error = inr (λ h. cc)

module _ {E : Type 0} (calc_node_id : E → NodeId) where
  -- What adding an endpoint comes to: the table holds its id afterwards, or the bucket of the id was full
  -- without it and nothing changed.
  abbrev pub JoinsOrOverflows : E → RoutingTable E → RoutingTable E → Type 0
  JoinsOrOverflows ep t t' =
      let kn = of_endpoint calc_node_id ep in
      let b = bucket_at t (index_of t kn) in
      (is_exist calc_node_id ep t' ≡ true) ⊎ ((4 ≤ length b) × (¬ Mem kn.id (ids b)) × (t' ≡ t))

  pub auto_update_batch-JoinsOrOverflows :
      (ep : E) (t : RoutingTable E)
      → IsWellFormed t
      → JoinsOrOverflows ep t (auto_update_batch calc_node_id (ep ∷ []) t)
  unfolding auto_update_batch auto_update RoutingTable.auto_update
  auto_update_batch-JoinsOrOverflows ep t w =
      let kn = of_endpoint calc_node_id ep in
      let b = bucket_at t (index_of t kn) in
      elim (overflow_or_not (Bucket.auto_update kn b).1) [
        | inr room ↦ inl (unfold auto_update in (is_exist-auto_update calc_node_id ep t w room))
        | inl over ↦
            let (iff, same) = auto_update-overflow_iff kn b in
            let (full, new) = iff.0 over in
            inr (
              full,
              new,
              ap (λ bs. record t { table = bs })
                  (ap (set t.table (index_of t kn)) (same over)
                    ∙ set-get_or t.table (index_of t kn) []),
            )
      ]

  write-Owned :
      (i : ℕ) (b : Bucket E) (t : RoutingTable E)
      → i < 160
      → IsWellFormed t
      → Owned calc_node_id t
      → ((x : KNode E) → Mem x b → Mem x (bucket_at t i))
      → Owned calc_node_id (set_bucket t i b)
  write-Owned i b t h w own old j x m = elim (set_bucket-cases t i j b w h) [
    | inl (_, new) ↦ own i x (old x (rw new at m))
    | inr (_, kept) ↦ own j x (rw kept at m)
  ]

  -- What the handlers of a refresh ping do to a bucket keeps a table well formed, with each node under the
  -- id of its endpoint.
  pub move_back_at-Owned :
      (i : ℕ) (kn : KNode E) (t : RoutingTable E)
      → i < 160
      → IsWellFormed t
      → Owned calc_node_id t
      → Owned calc_node_id (RoutingTable.move_back_at i kn t)
  unfolding RoutingTable.move_back_at
  move_back_at-Owned i kn t h w own = write-Owned i _ t h w own (λ x m. mem-move_back kn x _ m)

  pub delete_node_at-Owned :
      (i : ℕ) (kn : KNode E) (t : RoutingTable E)
      → i < 160
      → IsWellFormed t
      → Owned calc_node_id t
      → Owned calc_node_id (RoutingTable.delete_node_at i kn t)
  unfolding RoutingTable.delete_node_at
  delete_node_at-Owned i kn t h w own = write-Owned i _ t h w own (λ x m. mem-delete_node kn x _ m)
