-- ===== src/Ice/Binding/Consensus.antt =====
-- When global_ep_consensus of src/ss_p2p/ice_agent/ice_observer.cpp comes to a result, and which.
use ss_p2p_node_controller.Common.{
  ℕ, ◌+◌, ◌*◌, ◌/◌, ◌%◌, ◌≤◌, ◌<◌, max, Bool, true, false, ◌≡◌, ◌≢◌, ◌↔◌, refl, ◌∙◌, inl, inr,
  Bool-cases, ltb, List, [], ◌∷◌, length, Option, none, some, ltb→lt, not_ltb→le, arith,
}
use ss_p2p_node_controller.Ice.Binding.{
  done, error_done, count_responses, valid_eps, handling, forced, elect, global_ep_consensus,
}
use ss_p2p_node_controller.Ice.Binding.Tally.{SortsByCount, occurrences, winner_lem}

module _ {E : Type 0} where
  -- The nodes that have answered.
  abbrev pub answered : List (E × Option E) → ℕ
  answered [] = 0
  answered ((ep, none) ∷ rs) = answered rs
  answered ((ep, some answer) ∷ rs) = answered rs + 1

  answered-le : (rs : List (E × Option E)) → answered rs ≤ length rs
  answered-le [] = omega arith
  answered-le ((ep, none) ∷ rs) = omega (arith, answered-le rs)
  answered-le ((ep, some answer) ∷ rs) = omega (arith, answered-le rs)

  count_responses_lem :
      (count : ℕ) (rs : List (E × Option E))
      → count + length rs < 65536
      → count_responses count rs ≡ count + answered rs
  unfolding count_responses
  count_responses_lem count [] h = omega arith
  count_responses_lem count ((ep, none) ∷ rs) h = count_responses_lem count rs (omega arith)
  count_responses_lem count ((ep, some answer) ∷ rs) h =
      let small : (count + 1) % 65536 ≡ count + 1 = omega arith in
      rw small (omega (arith, count_responses_lem (count + 1) rs (omega arith)))

module _ {E : Type 0} (is_loopback : E → Bool) where
  valid_eps-le : (rs : List (E × Option E)) → length (valid_eps is_loopback rs) ≤ length rs
  unfolding valid_eps
  valid_eps-le [] = omega arith
  valid_eps-le ((ep, none) ∷ rs) = omega (arith, valid_eps-le rs)
  valid_eps-le ((ep, some answer) ∷ rs) = ground (arith, valid_eps-le rs)

module _ {E : Type 0} (is_loopback : E → Bool) (eq_ep : Discrete E)
    (sort : List (E × ℕ) → List (E × ℕ)) where
  count : (rs : List (E × Option E)) → length rs < 65536 → count_responses 0 rs ≡ answered rs
  count rs h = omega (arith, count_responses_lem 0 rs)

  -- The four ways through the vote.
  vote_few :
      (f : Bool) (rs : List (E × Option E))
      → length rs < 65536
      → 5 * answered rs < 2 * length rs
      → global_ep_consensus is_loopback eq_ep sort f rs ≡ handling
  unfolding global_ep_consensus
  vote_few f rs h few = rw (count rs h) (ground arith)

  vote_forced :
      (rs : List (E × Option E))
      → length rs < 65536
      → 2 * length rs ≤ 5 * answered rs
      → global_ep_consensus is_loopback eq_ep sort true rs
        ≡ forced is_loopback eq_ep sort (valid_eps is_loopback rs)
  unfolding global_ep_consensus
  vote_forced rs h enough = rw (count rs h) (ground arith)

  vote_short :
      (rs : List (E × Option E))
      → length rs < 65536
      → length (valid_eps is_loopback rs) < max (answered rs / 3) 1
      → global_ep_consensus is_loopback eq_ep sort false rs ≡ handling
  unfolding global_ep_consensus
  vote_short rs h short = rw (count rs h) (ground arith)

  vote_elect :
      (rs : List (E × Option E))
      → length rs < 65536
      → 2 * length rs ≤ 5 * answered rs
      → max (answered rs / 3) 1 ≤ length (valid_eps is_loopback rs)
      → global_ep_consensus is_loopback eq_ep sort false rs
        ≡ elect is_loopback eq_ep sort (valid_eps is_loopback rs)
  unfolding global_ep_consensus
  vote_elect rs h enough long = rw (count rs h) (ground arith)

  -- Without force, the vote ends exactly when at least two fifths of the nodes asked have answered,
  -- and the answers that are no loopback addresses number at least one and at least a third of
  -- all answers; otherwise it goes on, and it never ends in an error. Fewer than 65536 nodes are
  -- asked.
  consensus-done_iff :
      (rs : List (E × Option E))
      → length rs < 65536
      → ((global_ep_consensus is_loopback eq_ep sort false rs).state ≡ done ↔ (
          (2 * length rs ≤ 5 * answered rs)
          × (1 ≤ length (valid_eps is_loopback rs))
          × (answered rs / 3 ≤ length (valid_eps is_loopback rs))))
        × ((global_ep_consensus is_loopback eq_ep sort false rs).state ≢ error_done)
  unfolding elect
  consensus-done_iff rs h = elim (Bool-cases (ltb (5 * answered rs) (2 * length rs))) [
    | inl few ↦
        let lt : 5 * answered rs < 2 * length rs = ltb→lt _ _ few in
        rw (vote_few false rs h lt)
          ((λ e. absurd cc, λ (enough, _, _). absurd (omega arith)), λ e. absurd cc)
    | inr enough ↦
        let le : 2 * length rs ≤ 5 * answered rs = not_ltb→le _ _ enough in
        elim (Bool-cases (ltb (length (valid_eps is_loopback rs)) (max (answered rs / 3) 1))) [
          | inl short ↦
              let lt : length (valid_eps is_loopback rs) < max (answered rs / 3) 1 =
                ltb→lt _ _ short in
              rw (vote_short rs h lt)
                ((λ e. absurd cc, λ (_, one, third). absurd (omega arith)), λ e. absurd cc)
          | inr long ↦
              let wide : max (answered rs / 3) 1 ≤ length (valid_eps is_loopback rs) =
                not_ltb→le _ _ long in
              rw (vote_elect rs h le wide)
                ((λ e. (le, omega arith, omega arith), λ enough'. refl), λ e. absurd cc)
        ]
  ]

  forced-done :
      (vs : List E)
      → (forced is_loopback eq_ep sort vs).state ≡ done
      → (0 < length vs) × (forced is_loopback eq_ep sort vs ≡ elect is_loopback eq_ep sort vs)
  forced-done [] e = absurd cc
  forced-done (v ∷ vs) e = (omega arith, refl)

  -- A vote that ends is an election among at least one answer.
  elected :
      (is_force : Bool) (rs : List (E × Option E))
      → length rs < 65536
      → (global_ep_consensus is_loopback eq_ep sort is_force rs).state ≡ done
      → (length (valid_eps is_loopback rs) < 65536)
        × (0 < length (valid_eps is_loopback rs))
        × (global_ep_consensus is_loopback eq_ep sort is_force rs
            ≡ elect is_loopback eq_ep sort (valid_eps is_loopback rs))
  elected true rs h e = elim (Bool-cases (ltb (5 * answered rs) (2 * length rs))) [
    | inl few ↦ let e' = rw (vote_few true rs h (ltb→lt _ _ few)) at e in absurd cc
    | inr enough ↦
        let ballot = vote_forced rs h (not_ltb→le _ _ enough) in
        let (one, same) = forced-done (valid_eps is_loopback rs) (rw ballot at e) in
        (omega (arith, valid_eps-le is_loopback rs), one, ballot ∙ same)
  ]
  elected false rs h e =
      let (enough, one, third) = (consensus-done_iff rs h).0.0 e in
      (omega (arith, valid_eps-le is_loopback rs), one, vote_elect rs h enough (omega arith))

  -- If the vote among fewer than 65536 nodes ends, with or without force, its result is an
  -- endpoint that some node answered, no loopback address, and no other such endpoint was answered
  -- more often.
  pub consensus-winner :
      (is_force : Bool) (rs : List (E × Option E))
      → SortsByCount sort
      → length rs < 65536
      → (global_ep_consensus is_loopback eq_ep sort is_force rs).state ≡ done
      → (ep : E) × ((global_ep_consensus is_loopback eq_ep sort is_force rs).ep ≡ some ep)
        × (0 < occurrences eq_ep ep (valid_eps is_loopback rs))
        × ((other : E)
            → occurrences eq_ep other (valid_eps is_loopback rs)
              ≤ occurrences eq_ep ep (valid_eps is_loopback rs))
  unfolding elect
  consensus-winner is_force rs s h e =
      let (small, some_valid, ballot) = elected is_force rs h e in
      rw ballot (winner_lem eq_ep sort (valid_eps is_loopback rs) s some_valid small)
