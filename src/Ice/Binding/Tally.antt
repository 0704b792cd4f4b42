-- ===== src/Ice/Binding/Tally.antt =====
-- The counts that global_ep_consensus of src/ss_p2p/ice_agent/ice_observer.cpp makes of the answers.
use mathlib.Core.List.{not-mem-nil, eq-or-mem_of_mem-cons, mem-cons_self, mem-cons_of_mem}
use mathlib.Core.List.Perm
use mathlib.Core.Logic.Or
use mathlib.Core.HLevel.{⊥_prop}
use native.Mathlib.Bridge.{le_prop}
use native.Mathlib.Nat.{ℕ_set}
use ss_p2p_node_controller.Common.{
  ℕ, ◌+◌, ◌%◌, ◌≤◌, ◌<◌, ◌≡◌, ◌≢◌, refl, sym, ap, ◌∙◌, ◌⊎◌, inl, inr, ite, if_pos, if_neg, List, [],
  ◌∷◌, Mem, Perm, length, some, arith,
}
use ss_p2p_node_controller.Ice.Binding.{bump, tally, winner, short_mod}

-- What std::sort by descending count ensures: a permutation in which no later count is higher.
pub record SortsByCount {E : Type 0} (sort : List (E × ℕ) → List (E × ℕ)) : Type 0 where
  pub permutes : (m : List (E × ℕ)) → Perm (sort m) m
  pub descends :
      (m : List (E × ℕ)) (x : E × ℕ) (xs : List (E × ℕ))
      → sort m ≡ x ∷ xs
      → (y : E × ℕ) → Mem y xs
      → y.1 ≤ x.1

module _ {E : Type 0} (eq_ep : Discrete E) where
  -- How often an endpoint stands in a list, and its count in the map.
  abbrev pub occurrences : E → List E → ℕ
  occurrences ep [] = 0
  occurrences ep (x ∷ xs) = ite (eq_ep x ep) (occurrences ep xs + 1) (occurrences ep xs)

  abbrev get : E → List (E × ℕ) → ℕ
  get ep [] = 0
  get ep ((k, n) ∷ m) = ite (eq_ep k ep) n (get ep m)

  abbrev Fresh : E → List (E × ℕ) → Type 0
  Fresh ep [] = Unit
  Fresh ep ((k, n) ∷ m) = (k ≢ ep) × Fresh ep m

  abbrev Distinct : List (E × ℕ) → Type 0
  Distinct [] = Unit
  Distinct ((k, n) ∷ m) = Fresh k m × Distinct m

  get-bump_self :
      (x : E) (m : List (E × ℕ)) → get x m + 1 < 65536 → get x (bump eq_ep x m) ≡ get x m + 1
  unfolding bump
  get-bump_self x [] h = if_pos (eq_ep x x) refl _ _
  get-bump_self x ((k, n) ∷ m) h = ground (arith, get-bump_self x m)

  get-bump_ne : (x ep : E) (m : List (E × ℕ)) → x ≢ ep → get ep (bump eq_ep x m) ≡ get ep m
  unfolding bump
  get-bump_ne x ep [] h = if_neg (eq_ep x ep) h _ _
  get-bump_ne x ep ((k, n) ∷ m) h = ground (arith, get-bump_ne x ep m h)

  Fresh-bump : (x k : E) (m : List (E × ℕ)) → x ≢ k → Fresh k m → Fresh k (bump eq_ep x m)
  unfolding bump
  Fresh-bump x k [] h f = (h, tt)
  Fresh-bump x k ((j, n) ∷ m) h f = elim (eq_ep j x) [
    | yes e ↦ rw (if_pos (eq_ep j x) e ((j, (n + 1) % short_mod) ∷ m) ((j, n) ∷ bump eq_ep x m)) f
    | no e ↦
        rw (if_neg (eq_ep j x) e ((j, (n + 1) % short_mod) ∷ m) ((j, n) ∷ bump eq_ep x m))
          (f.0, Fresh-bump x k m h f.1)
  ]

  Distinct-bump : (x : E) (m : List (E × ℕ)) → Distinct m → Distinct (bump eq_ep x m)
  unfolding bump
  Distinct-bump x [] d = (tt, tt)
  Distinct-bump x ((j, n) ∷ m) d = elim (eq_ep j x) [
    | yes e ↦ rw (if_pos (eq_ep j x) e ((j, (n + 1) % short_mod) ∷ m) ((j, n) ∷ bump eq_ep x m)) d
    | no e ↦
        rw (if_neg (eq_ep j x) e ((j, (n + 1) % short_mod) ∷ m) ((j, n) ∷ bump eq_ep x m))
          (Fresh-bump x j m (λ s. e (sym s)) d.0, Distinct-bump x m d.1)
  ]

  Distinct-tally : (eps : List E) (m : List (E × ℕ)) → Distinct m → Distinct (tally eq_ep m eps)
  unfolding tally
  Distinct-tally [] m d = d
  Distinct-tally (x ∷ xs) m d = Distinct-tally xs (bump eq_ep x m) (Distinct-bump x m d)

  occurrences-le : (ep : E) (xs : List E) → occurrences ep xs ≤ length xs
  occurrences-le ep [] = omega arith
  occurrences-le ep (x ∷ xs) = ground (arith, occurrences-le ep xs)

  get-bump_le :
      (x ep : E) (m : List (E × ℕ)) → get x m + 1 < 65536 → get ep (bump eq_ep x m) ≤ get ep m + 1
  get-bump_le x ep m h = elim (eq_ep x ep) [
    | yes e ↦ rw (← e) (omega (arith, get-bump_self x m h))
    | no e ↦ omega (arith, get-bump_ne x ep m e)
  ]

  -- No count wraps as long as the list is shorter than the range of the counters.
  get-tally :
      (ep : E) (xs : List E) (m : List (E × ℕ))
      → ((k : E) → get k m + length xs < 65536)
      → get ep (tally eq_ep m xs) ≡ get ep m + occurrences ep xs
  unfolding tally
  get-tally ep [] m h = omega arith
  get-tally ep (x ∷ xs) m h =
      let room : get x m + 1 < 65536 = omega (arith, h x) in
      let rest =
        get-tally ep xs (bump eq_ep x m) (λ k. omega (arith, h k, get-bump_le x k m room)) in
      elim (eq_ep x ep) [
        | yes e ↦
            let self : get ep (bump eq_ep x m) ≡ get ep m + 1 = rw (← e) (get-bump_self x m room) in
            rw (if_pos (eq_ep x ep) e (occurrences ep xs + 1) (occurrences ep xs))
              (omega (arith, rest, self))
        | no e ↦
            rw (if_neg (eq_ep x ep) e (occurrences ep xs + 1) (occurrences ep xs))
              (omega (arith, rest, get-bump_ne x ep m e))
      ]

  -- An entry of a map with distinct keys is found under its key.
  Fresh-ne : (k : E) (m : List (E × ℕ)) (x : E × ℕ) → Fresh k m → Mem x m → x.0 ≢ k
  Fresh-ne k [] x f h e = absurd (not-mem-nil h)
  Fresh-ne k ((j, n) ∷ m) x f h e =
      Or.elim ⊥_prop (eq-or-mem_of_mem-cons h) (λ here. f.0 (sym (ap (λ y. y.0) here) ∙ e))
        (λ later. Fresh-ne k m x f.1 later e)

  get_of_mem : (m : List (E × ℕ)) (x : E × ℕ) → Distinct m → Mem x m → get x.0 m ≡ x.1
  get_of_mem [] x d h = absurd (not-mem-nil h)
  get_of_mem ((k, n) ∷ m) x d h =
      Or.elim (ℕ_set _ _) (eq-or-mem_of_mem-cons h)
        (λ here.
          if_pos (eq_ep k x.0) (sym (ap (λ y. y.0) here)) n (get x.0 m) ∙ sym (ap (λ y. y.1) here))
        (λ later.
          if_neg (eq_ep k x.0) (λ s. Fresh-ne k m x d.0 later (sym s)) n (get x.0 m)
          ∙ get_of_mem m x d.1 later)

  mem_of_get : (ep : E) (m : List (E × ℕ)) → (get ep m ≡ 0) ⊎ Mem (ep, get ep m) m
  mem_of_get ep [] = inl refl
  mem_of_get ep ((k, n) ∷ m) = elim (eq_ep k ep) [
    | yes e ↦ rw (if_pos (eq_ep k ep) e n (get ep m)) (inr (rw e mem-cons_self))
    | no e ↦
        rw (if_neg (eq_ep k ep) e n (get ep m))
          (elim (mem_of_get ep m) [ inl z ↦ inl z | inr i ↦ inr (mem-cons_of_mem (k, n) i) ])
  ]

  -- Whatever the order of equal counts, the winner of the vote is an answer, and no endpoint was
  -- answered more often.
  pub winner_lem :
      (sort : List (E × ℕ) → List (E × ℕ)) (eps : List E)
      → SortsByCount sort
      → 0 < length eps
      → length eps < 65536
      → (ep : E) × (winner (sort (tally eq_ep [] eps)) ≡ some ep)
        × (0 < occurrences ep eps)
        × ((other : E) → occurrences other eps ≤ occurrences ep eps)
  unfolding winner
  winner_lem sort [] s h k = absurd (omega arith)
  winner_lem sort (first ∷ eps) s h k = go (sort counted) refl
    where
      counted : List (E × ℕ)
      counted = tally eq_ep [] (first ∷ eps)

      count : (ep : E) → get ep counted ≡ occurrences ep (first ∷ eps)
      count ep = omega (arith, get-tally ep (first ∷ eps) [] (λ j. omega arith))

      once : 0 < occurrences first (first ∷ eps)
      once =
          rw (if_pos (eq_ep first first) refl (occurrences first eps + 1) (occurrences first eps))
            (omega arith)

      go :
          (sorted : List (E × ℕ))
          → sort counted ≡ sorted
          → (ep : E) × (winner sorted ≡ some ep)
            × (0 < occurrences ep (first ∷ eps))
            × ((other : E) → occurrences other (first ∷ eps) ≤ occurrences ep (first ∷ eps))
      go [] e = elim (mem_of_get first counted) [
        | inl z ↦ absurd (omega (arith, once, count first))
        | inr i ↦ absurd (not-mem-nil (rw e at ((Perm.mem_iff (s.permutes counted)).1 i)))
      ]
      go ((ep, n) ∷ rest) e = (ep, refl, omega (arith, most first, once), most)
        where
          own : n ≡ occurrences ep (first ∷ eps)
          own =
              sym (
                get_of_mem counted (ep, n) (Distinct-tally (first ∷ eps) [] tt)
                  ((Perm.mem_iff (s.permutes counted)).0 (rw e mem-cons_self)))
              ∙ count ep

          most : (other : E) → occurrences other (first ∷ eps) ≤ occurrences ep (first ∷ eps)
          most other = elim (mem_of_get other counted) [
            | inl z ↦ omega (arith, z, count other)
            | inr i ↦
                Or.elim le_prop
                  (eq-or-mem_of_mem-cons (rw e at ((Perm.mem_iff (s.permutes counted)).1 i)))
                  (λ here. omega (arith, ap (λ (y : E × ℕ). y.1) here, own, count other))
                  (λ later.
                    omega (arith, s.descends counted (ep, n) rest e _ later, own, count other))
          ]
