-- ===== src/Observers/Storage/Found.antt =====
-- An observer of observer_strage of include/ss_p2p/observer_strage.hpp that is found and changed.
use ss_p2p_node_controller.Common.{◌≡◌, refl, sym, ◌∙◌, if_pos, if_neg, List, [], ◌∷◌, arith}
use ss_p2p_node_controller.Observers.Storage.{done, find_observer, pop_observer, replace}
use ss_p2p_node_controller.Observers.Storage.Laws.{Lacks, UniqueIds}

module _ {O I : Type 0} (get_id : O → I) (eq_id : Discrete I) where
  pub find_observer-id :
      (id : I) (os : List O) (o : O) (more : List O)
      → find_observer get_id eq_id id os ≡ o ∷ more
      → get_id o ≡ id
  unfolding find_observer
  find_observer-id id [] o more e = absurd cc
  find_observer-id id (x ∷ xs) o more e = elim (eq_id (get_id x) id) [
    | yes same ↦
        let e' : x ∷ find_observer get_id eq_id id xs ≡ o ∷ more =
          rw (if_pos (eq_id (get_id x) id) same _ _) at e in
        let here : x ≡ o = ground arith in rw (← here) same
    | no other ↦ find_observer-id id xs o more (rw (if_neg (eq_id (get_id x) id) other _ _) at e)
  ]

  -- pop_observer returns only if there is nothing to pop.
  pop_observer-absent :
      (id : I) (os : List O) (r : List O × List O)
      → pop_observer get_id eq_id id os ≡ done r
      → (find_observer get_id eq_id id os ≡ []) × (r ≡ (os, []))
  unfolding pop_observer
  pop_observer-absent id os r e = go (find_observer get_id eq_id id os) refl
    where
      go :
          (found : List O)
          → find_observer get_id eq_id id os ≡ found
          → (find_observer get_id eq_id id os ≡ []) × (r ≡ (os, []))
      go [] same = (same, cc (rw same at e))
      go (o ∷ found) same = absurd (cc (rw same at e))

  Lacks-replace :
      (id : I) (k : I) (obs : O) (os : List O)
      → get_id obs ≡ id
      → Lacks get_id eq_id k os
      → Lacks get_id eq_id k (replace get_id eq_id id obs os)
  unfolding replace
  Lacks-replace id k obs [] e l = tt
  Lacks-replace id k obs (o ∷ os) e l = elim (eq_id (get_id o) id) [
    | yes same ↦ rw (if_pos (eq_id (get_id o) id) same _ _) (λ at_k. l.0 (same ∙ sym e ∙ at_k), l.1)
    | no other ↦ rw (if_neg (eq_id (get_id o) id) other _ _) (l.0, Lacks-replace id k obs os e l.1)
  ]

  pub UniqueIds-replace :
      (id : I) (obs : O) (os : List O)
      → get_id obs ≡ id
      → UniqueIds get_id eq_id os
      → UniqueIds get_id eq_id (replace get_id eq_id id obs os)
  unfolding replace
  UniqueIds-replace id obs [] e u = tt
  UniqueIds-replace id obs (o ∷ os) e u = elim (eq_id (get_id o) id) [
    | yes same ↦
        let same_id : get_id obs ≡ get_id o = e ∙ sym same in
        rw (if_pos (eq_id (get_id o) id) same _ _) (rw same_id u.0, u.1)
    | no other ↦
        rw (if_neg (eq_id (get_id o) id) other _ _)
          (Lacks-replace id (get_id o) obs os e u.0, UniqueIds-replace id obs os e u.1)
  ]
