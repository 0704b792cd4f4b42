-- ===== src/Observers/Storage.antt =====
-- observer_strage of include/ss_p2p/observer_strage.hpp for one type of observer `O`: the hashed
-- index is the list of its entries, which hold different ids.
pub mod Laws
pub mod Found
use ss_p2p_node_controller.Common.{
  Bool, true, false, if◌then◌else◌, ite, List, [], ◌∷◌, ◌++◌, Option, none, some,
}

-- `fault` stands for undefined behaviour.
pub data Outcome (A : Type 0) : Type 0 where
  done : A → Outcome A
  fault : Outcome A

-- `insert` into the index, given the entries with the id of the new one.
abbrev pub insert : {O : Type 0} → List O → O → List O → List O × Bool
insert [] obs os = (os ++ obs ∷ [], true)
insert (o ∷ found) obs os = (os, false)

module _ {O I : Type 0} (get_id : O → I) (eq_id : Discrete I) where
  -- `find_observer`: the range of entries with the id.
  unfoldable pub find_observer : I → List O → List O
  find_observer id [] = []
  find_observer id (o ∷ os) =
      ite (eq_id (get_id o) id) (o ∷ find_observer id os) (find_observer id os)

  -- `insert` fails on an id that is there.
  unfoldable pub add_observer : O → List O → List O × Bool
  unfolding find_observer
  add_observer obs os = insert (find_observer (get_id obs) os) obs os

  unfoldable pub erase : I → List O → List O
  erase id [] = []
  erase id (o ∷ os) = ite (eq_id (get_id o) id) os (o ∷ erase id os)

  abbrev pub erase_found : List O → I → List O → Outcome (List O)
  erase_found [] id os = fault
  erase_found (o ∷ found) id os = done (erase id os)

  -- `delete_observer` of an id that is not there erases the end iterator.
  unfoldable pub delete_observer : I → List O → Outcome (List O)
  unfolding find_observer erase
  delete_observer id os = erase_found (find_observer id os) id os

  abbrev pub pop_range : List O → List O → Outcome (List O × List O)
  pop_range [] os = done (os, [])
  pop_range (o ∷ found) os = fault

  -- `pop_observer` moves on from the iterator that it has just erased.
  unfoldable pub pop_observer : I → List O → Outcome (List O × List O)
  unfolding find_observer
  pop_observer id os = pop_range (find_observer id os) os

  -- An observer that was found is changed in its place, since the index holds pointers.
  unfoldable pub replace : I → O → List O → List O
  replace id obs [] = []
  replace id obs (o ∷ os) = ite (eq_id (get_id o) id) (obs ∷ os) (o ∷ replace id obs os)

module _ {O : Type 0} (is_expired : O → Bool) where
  -- `refresh_tick`: the expired observers of the entry are erased one by one.
  unfoldable pub delete_expires_observer : List O → List O
  delete_expires_observer [] = []
  delete_expires_observer (o ∷ os) =
      let rest = delete_expires_observer os in if is_expired o then rest else o ∷ rest
