-- ===== src/Kademlia/Bucket/Locate.antt =====
-- What the searches of src/ss_p2p/kademlia/k_bucket.cpp find.
use mathlib.Core.Bool.{Bool-set}
use mathlib.Core.List.{mem-cons_self, mem-cons_of_mem, eq-or-mem_of_mem-cons, not-mem-nil}
use mathlib.Core.Logic.Or
use ss_p2p_node_controller.Common.{
  true, false, ◌≡◌, refl, ◌⊎◌, inl, inr, List, [], ◌∷◌, ◌++◌, Mem, none, some, if_pos, if_neg,
  Option-cases, arith,
}
use ss_p2p_node_controller.Kademlia.NodeId.{NodeId, eq_id}
use ss_p2p_node_controller.Kademlia.Node.{KNode, ids}
use ss_p2p_node_controller.Kademlia.Bucket.{Position, find, contains}

-- A position splits the list, and its node has the id that was looked for.
abbrev pub Finds : {E : Type 0} → NodeId → List (KNode E) → Position E → Type 0
Finds id ns p = (ns ≡ p.before ++ p.node ∷ p.after) × (p.node.id ≡ id)

module _ {E : Type 0} where
  pub find-Finds :
      (id : NodeId) (ns : List (KNode E)) (p : Position E) → find id ns ≡ some p → Finds id ns p
  unfolding find
  find-Finds id [] p h = cc
  find-Finds id (n ∷ ns) p h = elim (eq_id n.id id) [
    | yes e ↦ ground arith
    | no e ↦ elim (Option-cases (find id ns)) [
      | inl lost ↦ ground arith
      | inr (q, found) ↦ ground (arith, find-Finds id ns q found)
    ]
  ]

  pub find-contains :
      (id : NodeId) (ns : List (KNode E))
      → ((find id ns ≡ none) × (contains id ns ≡ false))
        ⊎ ((p : Position E) × (find id ns ≡ some p) × (contains id ns ≡ true))
  unfolding find contains
  find-contains id [] = inl (refl, refl)
  find-contains id (n ∷ ns) = elim (eq_id n.id id) [
    | yes e ↦ inr (record { before = []; node = n; after = ns }, rw (if_pos _ e), rw (if_pos _ e))
    | no e ↦ elim (find-contains id ns) [
      | inl (lost, absent) ↦ inl (rw (if_neg _ e, lost), rw (if_neg _ e, absent))
      | inr (p, found, present) ↦
          inr (record p { before = n ∷ p.before }, rw (if_neg _ e, found), rw (if_neg _ e, present))
    ]
  ]

  pub mem_of_contains :
      (id : NodeId) (ns : List (KNode E)) → contains id ns ≡ true → Mem id (ids ns)
  unfolding contains
  mem_of_contains id [] h = cc
  mem_of_contains id (n ∷ ns) h = elim (eq_id n.id id) [
    | yes e ↦ rw e mem-cons_self
    | no e ↦ mem-cons_of_mem n.id (mem_of_contains id ns (rw (if_neg _ e) at h))
  ]

  pub contains_of_mem :
      (id : NodeId) (ns : List (KNode E)) → Mem id (ids ns) → contains id ns ≡ true
  unfolding contains
  contains_of_mem id [] m = absurd (not-mem-nil m)
  contains_of_mem id (n ∷ ns) m = elim (eq_id n.id id) [
    | yes e ↦ rw (if_pos _ e)
    | no e ↦ rw (if_neg _ e) (
        Or.elim (Bool-set _ _) (eq-or-mem_of_mem-cons m) (λ here. ground arith)
          (contains_of_mem id ns))
  ]

  pub not-mem_of_contains :
      (id : NodeId) (ns : List (KNode E)) → contains id ns ≡ false → ¬ Mem id (ids ns)
  not-mem_of_contains id ns h m = let t = contains_of_mem id ns m in cc
