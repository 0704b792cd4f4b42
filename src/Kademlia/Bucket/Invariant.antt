-- ===== src/Kademlia/Bucket/Invariant.antt =====
-- A bucket of src/ss_p2p/kademlia/k_bucket.cpp never holds more than four nodes, nor two nodes
-- with one id.
use mathlib.Core.List.{Nodup-cons, append-nil, perm_middle}
use mathlib.Core.List.Perm
use mathlib.Core.List.Sublist
use ss_p2p_node_controller.Common.{
  ◌≤◌, false, ◌≡◌, ap, inl, inr, List, [], ◌∷◌, ◌++◌, Mem, Nodup, Perm, Sublist, length,
  length-append, map-sublist, Bool-cases, Option-cases, arith,
}
use ss_p2p_node_controller.Kademlia.NodeId.{NodeId}
use ss_p2p_node_controller.Kademlia.Node.{KNode, ids}
use ss_p2p_node_controller.Kademlia.Bucket.Locate.{
  Finds, find-Finds, find-contains, not-mem_of_contains,
}
use ss_p2p_node_controller.Kademlia.Bucket.{
  Bucket, Position, find, is_exist, is_full, add_back, move_back, delete_node, swap_node,
  auto_update,
}

pub record IsValid {E : Type 0} (b : Bucket E) : Type 0 where
  pub bounded : length b ≤ 4
  pub distinct : Nodup (ids b)

module _ {E : Type 0} where
  to_front-perm : (b a : List (KNode E)) (n : KNode E) → Perm (b ++ n ∷ a) (n ∷ b ++ a)
  to_front-perm b a n = perm_middle b a

  to_back-perm : (b a : List (KNode E)) (n : KNode E) → Perm ((b ++ a) ++ n ∷ []) (b ++ n ∷ a)
  to_back-perm b a n =
      let rotated : Perm ((b ++ a) ++ n ∷ []) (n ∷ (b ++ a) ++ []) = perm_middle (b ++ a) [] in
      let cut : Perm ((b ++ a) ++ n ∷ []) (n ∷ b ++ a) = rw append-nil at rotated in
      Perm.trans cut (Perm.symm (perm_middle b a))

  back-perm : (ns : List (KNode E)) (n : KNode E) → Perm (ns ++ n ∷ []) (n ∷ ns)
  back-perm ns n =
      let moved : Perm (ns ++ n ∷ []) (n ∷ ns ++ []) = perm_middle ns [] in rw append-nil at moved

  -- move_back rearranges the bucket: it loses no node and adds none.
  pub move_back-perm : (kn : KNode E) (ns : Bucket E) → Perm (move_back kn ns) ns
  unfolding move_back
  move_back-perm kn ns = elim (Option-cases (find kn.id ns)) [
    | inl lost ↦ rw (lost, move_back) Perm.rfl
    | inr (p, found) ↦
        rw (found, move_back)
          (rw (find-Finds kn.id ns p found).0 (to_back-perm p.before p.after p.node))
  ]

  length-move_back : (kn : KNode E) (ns : Bucket E) → length (move_back kn ns) ≡ length ns
  unfolding move_back
  length-move_back kn ns = elim (Option-cases (find kn.id ns)) [
    | inl lost ↦ rw (lost, move_back)
    | inr (p, found) ↦
        rw (found, move_back)
          (omega (
            arith,
            ap length (find-Finds kn.id ns p found).0,
            length-append (p.before ++ p.after) (p.node ∷ []),
            length-append p.before p.after,
            length-append p.before (p.node ∷ p.after),
          ))
  ]

  perm-Nodup : (xs ys : Bucket E) → Perm xs ys → Nodup (ids xs) → Nodup (ids ys)
  perm-Nodup xs ys p d = Perm.nodup (Perm.map _ p) d

  pub move_back-IsValid : (kn : KNode E) (ns : Bucket E) → IsValid ns → IsValid (move_back kn ns)
  move_back-IsValid kn ns v = record {
    bounded = omega (arith, length-move_back kn ns, v.bounded);
    distinct = perm-Nodup ns (move_back kn ns) (Perm.symm (move_back-perm kn ns)) v.distinct;
  }

  cons-Nodup :
      (n : KNode E) (ns : Bucket E) → ¬ Mem n.id (ids ns) → Nodup (ids ns) → Nodup (ids (n ∷ ns))
  cons-Nodup n ns absent d = Nodup-cons.1 (absent, d)

  pub push_back-IsValid :
      (kn : KNode E) (ns : Bucket E)
      → IsValid ns
      → is_full ns ≡ false
      → is_exist kn ns ≡ false
      → IsValid (ns ++ kn ∷ [])
  unfolding is_full is_exist
  push_back-IsValid kn ns v room new = record {
    bounded = ground (arith, length-append ns (kn ∷ []), v.bounded);
    distinct =
        perm-Nodup (kn ∷ ns) (ns ++ kn ∷ []) (Perm.symm (back-perm ns kn))
          (cons-Nodup kn ns (not-mem_of_contains kn.id ns new) v.distinct);
  }

  pub add_back-IsValid : (kn : KNode E) (ns : Bucket E) → IsValid ns → IsValid (add_back kn ns)
  unfolding add_back
  add_back-IsValid kn ns v = elim (Bool-cases (is_full ns)) [
    | inl full ↦ rw (full, add_back) v
    | inr room ↦ elim (Bool-cases (is_exist kn ns)) [
      | inl old ↦ rw (room, old, add_back) v
      | inr new ↦ rw (room, new, add_back) (push_back-IsValid kn ns v room new)
    ]
  ]

  pub cut-sublist : (b a : List (KNode E)) (n : KNode E) → Sublist (b ++ a) (b ++ n ∷ a)
  cut-sublist b a n = Sublist.append (Sublist.refl b) (Sublist.cons n (Sublist.refl a))

  -- Taking out the node at a position keeps the rest valid, and nothing else has its id.
  pub cut-IsValid :
      (id : NodeId) (ns : Bucket E) (p : Position E)
      → IsValid ns
      → Finds id ns p
      → IsValid (p.before ++ p.after) × (¬ Mem id (ids (p.before ++ p.after)))
  cut-IsValid id ns p v f =
      let front = Nodup-cons.0 (perm-Nodup ns (p.node ∷ p.before ++ p.after) split v.distinct) in
      (
        record {
          bounded = omega (
            arith,
            ap length f.0,
            v.bounded,
            length-append p.before p.after,
            length-append p.before (p.node ∷ p.after),
          );
          distinct = front.1;
        },
        rw (← f.1) front.0,
      )
    where
      split : Perm ns (p.node ∷ p.before ++ p.after)
      split = rw f.0 (to_front-perm p.before p.after p.node)

  pub delete_node-IsValid :
      (kn : KNode E) (ns : Bucket E) → IsValid ns → IsValid (delete_node kn ns)
  unfolding delete_node
  delete_node-IsValid kn ns v = elim (Option-cases (find kn.id ns)) [
    | inl lost ↦ rw (lost, delete_node) v
    | inr (p, found) ↦
        rw (found, delete_node) (cut-IsValid kn.id ns p v (find-Finds kn.id ns p found)).0
  ]

  replace-IsValid :
      (src dest : KNode E) (ns : Bucket E) (p : Position E)
      → IsValid ns
      → Finds src.id ns p
      → ¬ Mem dest.id (ids ns)
      → IsValid (p.before ++ dest ∷ p.after)
  replace-IsValid src dest ns p v f new = record {
    bounded = omega (
      arith,
      ap length f.0,
      v.bounded,
      length-append p.before (dest ∷ p.after),
      length-append p.before (p.node ∷ p.after),
    );
    distinct =
        perm-Nodup (dest ∷ p.before ++ p.after) (p.before ++ dest ∷ p.after)
          (Perm.symm (to_front-perm p.before p.after dest))
          (cons-Nodup dest (p.before ++ p.after) absent (cut-IsValid src.id ns p v f).0.distinct);
  }
    where
      absent : ¬ Mem dest.id (ids (p.before ++ p.after))
      absent m =
          new
            (rw f.0 (Sublist.subset (map-sublist _ _ _ (cut-sublist p.before p.after p.node)) _ m))

  pub swap_node-IsValid :
      (src dest : KNode E) (ns : Bucket E) → IsValid ns → IsValid (swap_node src dest ns)
  unfolding swap_node
  swap_node-IsValid src dest ns v = elim (Option-cases (find src.id ns)) [
    | inl lost ↦ rw (lost, swap_node) v
    | inr (p, found) ↦ elim (find-contains dest.id ns) [
      | inl (free, new) ↦
          rw (found, free, swap_node)
            (replace-IsValid src dest ns p v (find-Finds src.id ns p found)
              (not-mem_of_contains dest.id ns new))
      | inr (q, taken, _) ↦ rw (found, taken, swap_node) v
    ]
  ]

  pub auto_update-IsValid :
      (kn : KNode E) (ns : Bucket E) → IsValid ns → IsValid (auto_update kn ns).0
  unfolding auto_update
  auto_update-IsValid kn ns v = elim (Bool-cases (is_exist kn ns)) [
    | inl old ↦ rw (old, auto_update) (move_back-IsValid kn ns v)
    | inr new ↦ elim (Bool-cases (is_full ns)) [
      | inl full ↦ rw (new, full, auto_update) v
      | inr room ↦ rw (new, room, auto_update) (push_back-IsValid kn ns v room new)
    ]
  ]

-- The calls that change a bucket.
pub data Call (E : Type 0) : Type 0 where
  updates adds moves deletes : KNode E → Call E
  swaps : KNode E → KNode E → Call E

unfoldable pub step : {E : Type 0} → Bucket E → Call E → Bucket E
step ns (updates kn) = (auto_update kn ns).0
step ns (adds kn) = add_back kn ns
step ns (moves kn) = move_back kn ns
step ns (deletes kn) = delete_node kn ns
step ns (swaps src dest) = swap_node src dest ns

unfoldable pub run : {E : Type 0} → Bucket E → List (Call E) → Bucket E
run ns [] = ns
run ns (c ∷ cs) = run (step ns c) cs

module _ {E : Type 0} where
  step-IsValid : (ns : Bucket E) (c : Call E) → IsValid ns → IsValid (step ns c)
  unfolding step
  step-IsValid ns (updates kn) v = auto_update-IsValid kn ns v
  step-IsValid ns (adds kn) v = add_back-IsValid kn ns v
  step-IsValid ns (moves kn) v = move_back-IsValid kn ns v
  step-IsValid ns (deletes kn) v = delete_node-IsValid kn ns v
  step-IsValid ns (swaps src dest) v = swap_node-IsValid src dest ns v

  -- From a bucket of at most four nodes with distinct ids, every sequence of the calls auto_update,
  -- add_back, move_back, delete_node and swap_node leads to such a bucket again.
  pub run-IsValid : (cs : List (Call E)) (ns : Bucket E) → IsValid ns → IsValid (run ns cs)
  unfolding run
  run-IsValid [] ns v = v
  run-IsValid (c ∷ cs) ns v = run-IsValid cs (step ns c) (step-IsValid ns c v)
