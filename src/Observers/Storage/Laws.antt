-- ===== src/Observers/Storage/Laws.antt =====
-- What observer_strage of include/ss_p2p/observer_strage.hpp keeps and finds.
use ss_p2p_node_controller.Common.{
  Bool, true, false, not, ◌≡◌, ◌≢◌, ◌↔◌, refl, sym, ◌∙◌, inl, inr, if_pos, if_neg, Bool-cases, List,
  [], ◌∷◌, ◌++◌, select, arith,
}
use ss_p2p_node_controller.Observers.Storage.{
  Outcome, done, fault, find_observer, add_observer, insert, erase, erase_found, delete_observer,
  delete_expires_observer,
}

-- The calls that change an entry.
pub data Call (O I : Type 0) : Type 0 where
  adds : O → Call O I
  deletes : I → Call O I
  sweeps : (O → Bool) → Call O I

-- A call after undefined behaviour has no meaning: the run is lost.
abbrev pub go_on : {A : Type 0} → Outcome A → (A → Outcome A) → Outcome A
go_on fault f = fault
go_on (done a) f = f a

module _ {O I : Type 0} (get_id : O → I) (eq_id : Discrete I) where
  -- No observer has the id.
  abbrev pub Lacks : I → List O → Type 0
  Lacks id [] = Unit
  Lacks id (o ∷ os) = (get_id o ≢ id) × Lacks id os

  abbrev pub UniqueIds : List O → Type 0
  UniqueIds [] = Unit
  UniqueIds (o ∷ os) = Lacks (get_id o) os × UniqueIds os

  find_of_Lacks : (id : I) (os : List O) → Lacks id os → find_observer get_id eq_id id os ≡ []
  unfolding find_observer
  find_of_Lacks id [] l = refl
  find_of_Lacks id (o ∷ os) l =
      if_neg (eq_id (get_id o) id) l.0 (o ∷ find_observer get_id eq_id id os)
        (find_observer get_id eq_id id os)
      ∙ find_of_Lacks id os l.1

  Lacks-of_find : (id : I) (os : List O) → find_observer get_id eq_id id os ≡ [] → Lacks id os
  unfolding find_observer
  Lacks-of_find id [] e = tt
  Lacks-of_find id (o ∷ os) e = elim (eq_id (get_id o) id) [
    | yes same ↦ absurd (ground arith)
    | no other ↦ (other, Lacks-of_find id os (ground arith))
  ]

  Lacks-append :
      (id : I) (os : List O) (o : O) → Lacks id os → get_id o ≢ id → Lacks id (os ++ o ∷ [])
  Lacks-append id [] o l h = (h, tt)
  Lacks-append id (x ∷ xs) o l h = (l.0, Lacks-append id xs o l.1 h)

  UniqueIds-append :
      (os : List O) (o : O) → UniqueIds os → Lacks (get_id o) os → UniqueIds (os ++ o ∷ [])
  UniqueIds-append [] o u l = (tt, tt)
  UniqueIds-append (x ∷ xs) o u l =
      (Lacks-append (get_id x) xs o u.0 (λ e. l.0 (sym e)), UniqueIds-append xs o u.1 l.1)

  Lacks-erase : (id id' : I) (os : List O) → Lacks id os → Lacks id (erase get_id eq_id id' os)
  unfolding erase
  Lacks-erase id id' [] l = tt
  Lacks-erase id id' (o ∷ os) l = elim (eq_id (get_id o) id') [
    | yes e ↦ rw (if_pos (eq_id (get_id o) id') e os (o ∷ erase get_id eq_id id' os)) l.1
    | no e ↦
        rw (if_neg (eq_id (get_id o) id') e os (o ∷ erase get_id eq_id id' os))
          (l.0, Lacks-erase id id' os l.1)
  ]

  UniqueIds-erase : (id : I) (os : List O) → UniqueIds os → UniqueIds (erase get_id eq_id id os)
  unfolding erase
  UniqueIds-erase id [] u = tt
  UniqueIds-erase id (o ∷ os) u = elim (eq_id (get_id o) id) [
    | yes e ↦ rw (if_pos (eq_id (get_id o) id) e os (o ∷ erase get_id eq_id id os)) u.1
    | no e ↦
        rw (if_neg (eq_id (get_id o) id) e os (o ∷ erase get_id eq_id id os))
          (Lacks-erase (get_id o) id os u.0, UniqueIds-erase id os u.1)
  ]

  Lacks-sweep :
      (p : O → Bool) (id : I) (os : List O) → Lacks id os → Lacks id (delete_expires_observer p os)
  unfolding delete_expires_observer
  Lacks-sweep p id [] l = tt
  Lacks-sweep p id (o ∷ os) l = elim (Bool-cases (p o)) [
    | inl e ↦ rw e (Lacks-sweep p id os l.1)
    | inr e ↦ rw e (l.0, Lacks-sweep p id os l.1)
  ]

  pub UniqueIds-sweep :
      (p : O → Bool) (os : List O) → UniqueIds os → UniqueIds (delete_expires_observer p os)
  unfolding delete_expires_observer
  UniqueIds-sweep p [] u = tt
  UniqueIds-sweep p (o ∷ os) u = elim (Bool-cases (p o)) [
    | inl e ↦ rw e (UniqueIds-sweep p os u.1)
    | inr e ↦ rw e (Lacks-sweep p (get_id o) os u.0, UniqueIds-sweep p os u.1)
  ]

  pub UniqueIds-add :
      (o : O) (os : List O) → UniqueIds os → UniqueIds (add_observer get_id eq_id o os).0
  unfolding add_observer
  UniqueIds-add o os u = go (find_observer get_id eq_id (get_id o) os) refl
    where
      go :
          (found : List O)
          → find_observer get_id eq_id (get_id o) os ≡ found
          → UniqueIds (insert found o os).0
      go [] e = UniqueIds-append os o u (Lacks-of_find (get_id o) os e)
      go (x ∷ xs) e = u

  unfoldable pub step : List O → Call O I → Outcome (List O)
  step os (adds o) = done (add_observer get_id eq_id o os).0
  step os (deletes id) = delete_observer get_id eq_id id os
  step os (sweeps p) = done (delete_expires_observer p os)

  -- A call after undefined behaviour has no meaning: the run is lost.
  unfoldable pub run : List O → List (Call O I) → Outcome (List O)
  run os [] = done os
  run os (c ∷ cs) = go_on (step os c) (λ os'. run os' cs)

  find_append_other :
      (id : I) (os : List O) (o : O)
      → get_id o ≢ id
      → find_observer get_id eq_id id (os ++ o ∷ []) ≡ find_observer get_id eq_id id os
  unfolding find_observer
  find_append_other id [] o h = if_neg (eq_id (get_id o) id) h _ _
  find_append_other id (x ∷ xs) o h = ground (arith, find_append_other id xs o h)

  find_append_own :
      (os : List O) (o : O)
      → find_observer get_id eq_id (get_id o) os ≡ []
      → find_observer get_id eq_id (get_id o) (os ++ o ∷ []) ≡ o ∷ []
  unfolding find_observer
  find_append_own [] o e = if_pos (eq_id (get_id o) (get_id o)) refl _ _
  find_append_own (x ∷ xs) o e = elim (eq_id (get_id x) (get_id o)) [
    | yes same ↦ absurd (ground arith)
    | no other ↦
        if_neg (eq_id (get_id x) (get_id o)) other _ _ ∙ find_append_own xs o (ground arith)
  ]

  -- add_observer stores an observer exactly if its id is new. It is then the only one that
  -- find_observer gives for its id, and for every other id find_observer gives what it gave
  -- before; an observer that is turned away changes nothing.
  pub add_observer_lem :
      (o : O) (os : List O)
      → (Lacks (get_id o) os
          → ((add_observer get_id eq_id o os).1 ≡ true)
            × (find_observer get_id eq_id (get_id o) (add_observer get_id eq_id o os).0 ≡ o ∷ [])
            × ((id : I)
                → get_id o ≢ id
                → find_observer get_id eq_id id (add_observer get_id eq_id o os).0
                  ≡ find_observer get_id eq_id id os))
        × (¬ Lacks (get_id o) os → add_observer get_id eq_id o os ≡ (os, false))
  unfolding add_observer
  add_observer_lem o os = (fresh, taken)
    where
      fresh :
          Lacks (get_id o) os
          → ((add_observer get_id eq_id o os).1 ≡ true)
            × (find_observer get_id eq_id (get_id o) (add_observer get_id eq_id o os).0 ≡ o ∷ [])
            × ((id : I)
                → get_id o ≢ id
                → find_observer get_id eq_id id (add_observer get_id eq_id o os).0
                  ≡ find_observer get_id eq_id id os)
      fresh l =
          let e = find_of_Lacks (get_id o) os l in
          rw e (refl, find_append_own os o e, λ id h. find_append_other id os o h)

      taken : ¬ Lacks (get_id o) os → add_observer get_id eq_id o os ≡ (os, false)
      taken h = go (find_observer get_id eq_id (get_id o) os) refl
        where
          go :
              (found : List O)
              → find_observer get_id eq_id (get_id o) os ≡ found
              → insert found o os ≡ (os, false)
          go [] e = absurd (h (Lacks-of_find (get_id o) os e))
          go (x ∷ xs) e = refl

  -- After a sweep, find_observer gives for every id those observers that it gave before and that
  -- are not expired.
  pub find_observer-sweep :
      (p : O → Bool) (id : I) (os : List O)
      → find_observer get_id eq_id id (delete_expires_observer p os)
        ≡ select (λ o. not (p o)) (find_observer get_id eq_id id os)
  unfolding find_observer delete_expires_observer
  find_observer-sweep p id [] = refl
  find_observer-sweep p id (o ∷ os) = ground (arith, find_observer-sweep p id os)

  -- delete_observer runs into undefined behaviour, erasing the end of the index, exactly for an id
  -- that is not there.
  pub delete_observer-fault_iff :
      (id : I) (os : List O) → (delete_observer get_id eq_id id os ≡ fault) ↔ Lacks id os
  unfolding delete_observer
  delete_observer-fault_iff id os =
      (go (find_observer get_id eq_id id os) refl, λ l. rw (find_of_Lacks id os l))
    where
      go :
          (found : List O)
          → find_observer get_id eq_id id os ≡ found
          → erase_found get_id eq_id found id os ≡ fault
          → Lacks id os
      go [] e h = Lacks-of_find id os e
      go (x ∷ xs) e h = absurd cc

  -- What holds of a run that met no undefined behaviour.
  abbrev Ensures : Outcome (List O) → Type 0
  Ensures fault = Unit
  Ensures (done os) = UniqueIds os

  step-Ensures : (os : List O) (c : Call O I) → UniqueIds os → Ensures (step os c)
  unfolding step delete_observer
  step-Ensures os (adds o) u = UniqueIds-add o os u
  step-Ensures os (deletes id) u = go (find_observer get_id eq_id id os)
    where
      go : (found : List O) → Ensures (erase_found get_id eq_id found id os)
      go [] = tt
      go (x ∷ xs) = UniqueIds-erase id os u
  step-Ensures os (sweeps p) u = UniqueIds-sweep p os u

  go_on-Ensures :
      (f : List O → Outcome (List O))
      → ((os : List O) → UniqueIds os → Ensures (f os))
      → (r : Outcome (List O)) → Ensures r
      → Ensures (go_on r f)
  go_on-Ensures f keep fault h = tt
  go_on-Ensures f keep (done os) h = keep os h

  run-Ensures : (cs : List (Call O I)) (os : List O) → UniqueIds os → Ensures (run os cs)
  unfolding run
  run-Ensures [] os u = u
  run-Ensures (c ∷ cs) os u =
      go_on-Ensures (λ os'. run os' cs) (λ os' h. run-Ensures cs os' h) (step os c)
        (step-Ensures os c u)

  -- Any sequence of calls of add_observer, delete_observer and sweeps, if it meets no undefined
  -- behaviour, leaves the ids of the observers different from each other.
  pub run-UniqueIds :
      (cs : List (Call O I)) (os os' : List O) → UniqueIds os → run os cs ≡ done os' → UniqueIds os'
  run-UniqueIds cs os os' u e = rw e at (run-Ensures cs os u)
