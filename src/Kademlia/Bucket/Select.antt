-- ===== src/Kademlia/Bucket/Select.antt =====
-- What get_node_front and get_node_back of src/ss_p2p/kademlia/k_bucket.cpp return.
use mathlib.Core.List.{append-nil, append_assoc, mem-reverse, reverse_perm}
use mathlib.Core.List.Perm
use mathlib.Core.List.Nodup
use mathlib.Core.List.Sublist
use ss_p2p_node_controller.Common.{
  ℕ, zero, suc, ◌+◌, ◌-◌, ◌≤◌, ◌<◌, max, Bool, true, false, not, ◌≡◌, refl, sym, ◌∙◌, inl, inr,
  List, [], ◌∷◌, ◌++◌, Mem, Nodup, reverse, length, take, select, length-append, length-take,
  take_of_length-le, take-sublist, select-sublist, map-sublist, mem-select_of_mem,
  test_of_mem-select, Bool-cases, arith,
}
use ss_p2p_node_controller.Kademlia.Node.{KNode, ids}
use ss_p2p_node_controller.Kademlia.Bucket.{
  Bucket, contains, collect_loop, get_node_front, get_node_back,
}

not-true : (b : Bool) → not b ≡ true → b ≡ false
not-true true h = cc
not-true false h = refl

module _ {E : Type 0} where
  -- The nodes that the caller did not ask to leave out.
  abbrev pub wanted : List (KNode E) → List (KNode E) → List (KNode E)
  wanted ignore_nodes = select (λ n. not (contains n.id ignore_nodes))

  -- One turn of the loop at a node that is not ignored.
  collect_loop_full :
      (count : ℕ) (ig ret : List (KNode E)) (n : KNode E) (ns : List (KNode E))
      → contains n.id ig ≡ false
      → length ret + 1 ≡ max 1 count
      → collect_loop count ig ret (n ∷ ns) ≡ ret ++ n ∷ []
  unfolding collect_loop
  collect_loop_full count ig ret n ns keep h = ground (arith, length-append ret (n ∷ []))

  collect_loop_more :
      (count : ℕ) (ig ret : List (KNode E)) (n : KNode E) (ns : List (KNode E))
      → contains n.id ig ≡ false
      → length ret + 1 < max 1 count
      → collect_loop count ig ret (n ∷ ns) ≡ collect_loop count ig (ret ++ n ∷ []) ns
  unfolding collect_loop
  collect_loop_more count ig ret n ns keep h = ground (arith, length-append ret (n ∷ []))

  collect_loop_skip :
      (count : ℕ) (ig ret : List (KNode E)) (n : KNode E) (ns : List (KNode E))
      → contains n.id ig ≡ true
      → collect_loop count ig ret (n ∷ ns) ≡ collect_loop count ig ret ns
  unfolding collect_loop
  collect_loop_skip count ig ret n ns skip = rw (skip)

  collect_loop-take :
      (count : ℕ) (ig ret ns : List (KNode E)) (m : ℕ)
      → length ret + suc m ≡ max 1 count
      → collect_loop count ig ret ns ≡ ret ++ take (suc m) (wanted ig ns)
  collect_loop-take count ig ret [] m h = unfold collect_loop in sym (append-nil ret)
  collect_loop-take count ig ret (n ∷ ns) m h = elim (Bool-cases (contains n.id ig)) [
    | inl skip ↦
        rw (skip, collect_loop_skip count ig ret n ns skip) (collect_loop-take count ig ret ns m h)
    | inr keep ↦ kept m h keep (λ k. collect_loop-take count ig (ret ++ n ∷ []) ns k)
  ]
    where
      kept :
          (k : ℕ)
          → length ret + suc k ≡ max 1 count
          → contains n.id ig ≡ false
          → ((j : ℕ)
              → length (ret ++ n ∷ []) + suc j ≡ max 1 count
              → collect_loop count ig (ret ++ n ∷ []) ns
                ≡ (ret ++ n ∷ []) ++ take (suc j) (wanted ig ns))
          → collect_loop count ig ret (n ∷ ns) ≡ ret ++ take (suc k) (wanted ig (n ∷ ns))
      kept zero e keep rest = rw keep (collect_loop_full count ig ret n ns keep e)
      kept (suc k) e keep rest = rw keep (
          collect_loop_more count ig ret n ns keep (omega arith)
          ∙ rest k (omega (arith, length-append ret (n ∷ [])))
          ∙ append_assoc ret (n ∷ []) _)

  -- get_node_front returns the first max(1, count) nodes of the bucket whose ids are not among the
  -- ignored ones, in the bucket's order; get_node_back does so from the back, in reverse order.
  -- So a count of 0 is served like a count of 1.
  pub get_node-take :
      (count : ℕ) (ig : List (KNode E)) (ns : Bucket E)
      → (get_node_front count ig ns ≡ take (max 1 count) (wanted ig ns))
        × (get_node_back count ig ns ≡ take (max 1 count) (wanted ig (reverse ns)))
  unfolding get_node_front get_node_back
  get_node-take count ig ns =
      let e : max 1 count ≡ suc (max 1 count - 1) = omega arith in
      rw e (
        collect_loop-take count ig [] ns (max 1 count - 1) (omega arith),
        collect_loop-take count ig [] (reverse ns) (max 1 count - 1) (omega arith),
      )

  mem_of_mem-take : {x : KNode E} (n : ℕ) (xs : List (KNode E)) → Mem x (take n xs) → Mem x xs
  mem_of_mem-take {x} n xs m = Sublist.subset (take-sublist n xs) x m

  -- What a client may rely on: enough about the result of get_node_back to follow collect_node.
  pub record Collected (count : ℕ) (ig : List (KNode E)) (ns ret : List (KNode E)) : Type 0 where
    pub bounded : length ret ≤ max 1 count
    pub inside : (x : KNode E) → Mem x ret → Mem x ns
    pub unignored : (x : KNode E) → Mem x ret → contains x.id ig ≡ false
    pub exhaustive :
        length ret < count → (x : KNode E) → Mem x ns → contains x.id ig ≡ false → Mem x ret
    pub distinct : Nodup (ids ns) → Nodup (ids ret)

  pub get_node_back-Collected :
      (count : ℕ) (ig : List (KNode E)) (ns : Bucket E)
      → Collected count ig ns (get_node_back count ig ns)
  get_node_back-Collected count ig ns = rw ((get_node-take count ig ns).1) (record {
    bounded = omega (arith, length-take (max 1 count) source);
    inside = λ x m.
        mem-reverse.0
          (Sublist.subset (select-sublist _ (reverse ns)) x (mem_of_mem-take _ source m));
    unignored = λ x m. not-true _ (
        test_of_mem-select (λ n. not (contains n.id ig)) (reverse ns) (mem_of_mem-take _ source m));
    exhaustive = λ short x m keep.
        rw
          (take_of_length-le (max 1 count) source (omega (arith, length-take (max 1 count) source)))
          (mem-select_of_mem (λ n. not (contains n.id ig)) (reverse ns) (rw keep)
            (mem-reverse.1 m));
    distinct = λ d.
        Nodup.sublist
          (map-sublist (λ n. n.id) _ _
            (Sublist.trans (take-sublist _ source) (select-sublist _ (reverse ns))))
          (Perm.nodup (Perm.symm (Perm.map _ (reverse_perm ns))) d);
  })
    where
      source : List (KNode E)
      source = wanted ig (reverse ns)
