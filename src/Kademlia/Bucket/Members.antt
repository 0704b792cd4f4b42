-- ===== src/Kademlia/Bucket/Members.antt =====
-- Which nodes a bucket of src/ss_p2p/kademlia/k_bucket.cpp holds after a call, and in what order.
use mathlib.Core.Bool.{false≢true}
use mathlib.Core.List.{
  Mem-prop, mem-cons, mem-append, not-mem-nil, mem-append_left, mem-append_right,
}
use mathlib.Core.List.Perm
use mathlib.Core.List.Sublist
use mathlib.Core.Logic.{◌∨₁◌, ∨₁_prop}
use mathlib.Core.Logic.Or
use ss_p2p_node_controller.Common.{
  ◌≤◌, ◌<◌, true, false, ◌≡◌, ◌≢◌, ◌↔◌, refl, sym, ap, ◌∙◌, inl, inr, Bool-cases, Option-cases,
  List, [], ◌∷◌, ◌++◌, Mem, Sublist, some, length, leb, ◌⊎◌, arith,
}
use ss_p2p_node_controller.Kademlia.Node.{KNode, ids}
use ss_p2p_node_controller.Kademlia.Bucket.Invariant.{
  IsValid, move_back-perm, cut-sublist, cut-IsValid,
}
use ss_p2p_node_controller.Kademlia.Bucket.Locate.{
  Finds, find-Finds, find-contains, mem_of_contains, not-mem_of_contains,
}
use ss_p2p_node_controller.Kademlia.Bucket.{
  Bucket, Position, added_back, moved_back, overflow, find, contains, is_exist, is_full, move_back,
  delete_node, swap_node, auto_update,
}

module _ {E : Type 0} where
  mem-push_back : (ns : Bucket E) (kn x : KNode E) → Mem x (ns ++ kn ∷ []) → Mem x ns ∨₁ (x ≡ kn)
  mem-push_back ns kn x m = Or.elim ∨₁_prop (mem-append.0 m) Or.inl (λ last.
      Or.elim ∨₁_prop (mem-cons.0 last) Or.inr (λ none_left. absurd (not-mem-nil none_left)))

  pub mem-move_back : (kn x : KNode E) (ns : Bucket E) → Mem x (move_back kn ns) → Mem x ns
  mem-move_back kn x ns m = Perm.subset (move_back-perm kn ns) x m

  pub mem-auto_update :
      (kn x : KNode E) (ns : Bucket E) → Mem x (auto_update kn ns).0 → Mem x ns ∨₁ (x ≡ kn)
  unfolding auto_update
  mem-auto_update kn x ns m = elim (Bool-cases (is_exist kn ns)) [
    | inl old ↦ Or.inl (mem-move_back kn x ns (rw (old, auto_update) at m))
    | inr new ↦ elim (Bool-cases (is_full ns)) [
      | inl full ↦ Or.inl (rw (new, full, auto_update) at m)
      | inr room ↦ mem-push_back ns kn x (rw (new, room, auto_update) at m)
    ]
  ]

  pub mem-delete_node : (kn x : KNode E) (ns : Bucket E) → Mem x (delete_node kn ns) → Mem x ns
  unfolding delete_node
  mem-delete_node kn x ns m = elim (Option-cases (find kn.id ns)) [
    | inl lost ↦ rw (lost, delete_node) at m
    | inr (p, found) ↦
        rw (find-Finds kn.id ns p found).0
          (Sublist.subset (cut-sublist p.before p.after p.node) x (rw (found, delete_node) at m))
  ]

  mem_replaced :
      (b a : List (KNode E)) (old new x : KNode E)
      → Mem x (b ++ new ∷ a)
      → Mem x (b ++ old ∷ a) ∨₁ (x ≡ new)
  mem_replaced b a old new x m =
      Or.elim ∨₁_prop (mem-append.0 m) (λ front. Or.inl (mem-append_left _ front))
        (λ rest.
          Or.elim ∨₁_prop (mem-cons.0 rest) Or.inr
            (λ back. Or.inl (mem-append_right b (mem-cons.1 (Or.inr back)))))

  pub mem-swap_node :
      (src dest x : KNode E) (ns : Bucket E)
      → Mem x (swap_node src dest ns)
      → Mem x ns ∨₁ (x ≡ dest)
  unfolding swap_node
  mem-swap_node src dest x ns m = elim (Option-cases (find src.id ns)) [
    | inl lost ↦ Or.inl (rw (lost, swap_node) at m)
    | inr (p, found) ↦ elim (Option-cases (find dest.id ns)) [
      | inl free ↦
          rw (find-Finds src.id ns p found).0
            (mem_replaced p.before p.after p.node dest x (rw (found, free, swap_node) at m))
      | inr (q, taken) ↦ Or.inl (rw (found, taken, swap_node) at m)
    ]
  ]

  -- The three ways through auto_update.
  auto_update-cases :
      (kn : KNode E) (ns : Bucket E)
      → ((contains kn.id ns ≡ true) × (auto_update kn ns ≡ (move_back kn ns, moved_back)))
        ⊎ (((contains kn.id ns ≡ false) × (4 ≤ length ns) × (auto_update kn ns ≡ (ns, overflow)))
            ⊎ ((contains kn.id ns ≡ false)
                × (length ns < 4)
                × (auto_update kn ns ≡ (ns ++ kn ∷ [], added_back))))
  unfolding auto_update
  auto_update-cases kn ns = elim (Bool-cases (contains kn.id ns)) [
    | inl old ↦ inl (old, rw old)
    | inr new ↦ elim (Bool-cases (leb 4 (length ns))) [
      | inl full ↦ inr (inl (new, ground arith, rw (new, full)))
      | inr room ↦ inr (inr (new, ground arith, rw (new, room)))
    ]
  ]

  -- auto_update answers overflow exactly when the bucket holds at least four nodes and none with
  -- the id of the new node, and then leaves the bucket as it is.
  pub auto_update-overflow_iff :
      (kn : KNode E) (ns : Bucket E)
      → (((auto_update kn ns).1 ≡ overflow) ↔ ((4 ≤ length ns) × (¬ Mem kn.id (ids ns))))
        × ((auto_update kn ns).1 ≡ overflow → (auto_update kn ns).0 ≡ ns)
  auto_update-overflow_iff kn ns = elim (auto_update-cases kn ns) [
    | inl (old, e) ↦
        rw e
          ((λ h. absurd (cc), λ h. absurd (h.1 (mem_of_contains kn.id ns old))), λ h. absurd (cc))
    | inr (inl (new, full, e)) ↦
        rw e ((λ h. (full, not-mem_of_contains kn.id ns new), λ h. refl), λ h. refl)
    | inr (inr (new, room, e)) ↦
        rw e ((λ h. absurd (cc), λ h. absurd (omega arith)), λ h. absurd (cc))
  ]

  mem-cut :
      (b a : List (KNode E)) (n x : KNode E) → x.id ≢ n.id → Mem x (b ++ n ∷ a) → Mem x (b ++ a)
  mem-cut b a n x other m =
      Or.elim Mem-prop (mem-append.0 m) (λ front. mem-append_left a front)
        (λ rest.
          Or.elim Mem-prop (mem-cons.0 rest) (λ e. absurd (other (ap (λ k. k.id) e)))
            (mem-append_right b))

  -- What a bucket looks like once `kn` has been seen last.
  abbrev pub SeenLast : KNode E → Bucket E → Bucket E → Type 0
  SeenLast kn ns result =
      (rest : List (KNode E)) × (last : KNode E) × (result ≡ rest ++ last ∷ [])
      × (last.id ≡ kn.id)
      × Sublist rest ns
      × (¬ Mem kn.id (ids rest))
      × ((x : KNode E) → Mem x ns → x.id ≢ kn.id → Mem x rest)

  move_back-SeenLast :
      (kn : KNode E) (ns : Bucket E)
      → IsValid ns
      → contains kn.id ns ≡ true
      → SeenLast kn ns (move_back kn ns)
  unfolding move_back
  move_back-SeenLast kn ns v old = elim (find-contains kn.id ns) [
    | inl (lost, new) ↦ absurd (false≢true (sym new ∙ old))
    | inr (p, found, _) ↦ at_position p found (find-Finds kn.id ns p found)
  ]
    where
      at_position :
          (p : Position E)
          → find kn.id ns ≡ some p
          → Finds kn.id ns p
          → SeenLast kn ns (move_back kn ns)
      at_position p found f = (
        p.before ++ p.after,
        p.node,
        rw (found, move_back),
        f.1,
        rw f.0 (cut-sublist p.before p.after p.node),
        (cut-IsValid kn.id ns p v f).1,
        λ x m other. mem-cut p.before p.after p.node x (λ e. other (e ∙ f.1)) (rw f.0 at m),
      )

  -- Unless a valid bucket overflows, auto_update leaves a node with the given id at the back, and
  -- before it exactly the other nodes of the bucket, in their old order.
  pub auto_update_recency :
      (kn : KNode E) (ns : Bucket E)
      → IsValid ns
      → (auto_update kn ns).1 ≢ overflow
      → SeenLast kn ns (auto_update kn ns).0
  auto_update_recency kn ns v h = elim (auto_update-cases kn ns) [
    | inl (old, e) ↦ rw e (move_back-SeenLast kn ns v old)
    | inr (inl (new, full, e)) ↦ absurd (h (rw e))
    | inr (inr (new, room, e)) ↦
        rw e (ns, kn, refl, refl, Sublist.refl ns, not-mem_of_contains kn.id ns new, λ x m other. m)
  ]

  -- After delete_node a valid bucket holds no node with the given id, and still holds every other
  -- node that it held, in the old order.
  pub delete_node_lem :
      (kn : KNode E) (ns : Bucket E)
      → IsValid ns
      → (¬ Mem kn.id (ids (delete_node kn ns)))
        × Sublist (delete_node kn ns) ns
        × ((x : KNode E) → Mem x ns → x.id ≢ kn.id → Mem x (delete_node kn ns))
  unfolding delete_node
  delete_node_lem kn ns v = elim (find-contains kn.id ns) [
    | inl (lost, new) ↦
        rw (lost, delete_node) (not-mem_of_contains kn.id ns new, Sublist.refl ns, λ x m other. m)
    | inr (p, found, _) ↦
        let f = find-Finds kn.id ns p found in
        rw (found, delete_node)
          (
            (cut-IsValid kn.id ns p v f).1,
            rw f.0 (cut-sublist p.before p.after p.node),
            λ x m other. mem-cut p.before p.after p.node x (λ e. other (e ∙ f.1)) (rw f.0 at m),
          )
  ]
