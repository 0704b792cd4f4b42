-- ===== src/Logger/Replace.antt =====
-- That the loop of replace in src/include/logger/logger.impl.hpp ends, with every occurrence replaced.
use mathlib.Core.List.{append_assoc}
use ss_p2p_node_controller.Common.{
  ℕ, zero, suc, ◌+◌, ◌-◌, ◌<◌, ◌≡◌, ◌≢◌, refl, sym, ap, ◌∙◌, inl, inr, true, false, Bool-cases,
  Option-cases, ltb, ◌==◌, if◌then◌else◌, [], ◌∷◌, ◌++◌, length, length-append, take-append, none,
  some, arith,
}
use ss_p2p_node_controller.Json.{Text}
use ss_p2p_node_controller.Endpoint.{drop}
use ss_p2p_node_controller.Logger.Utils.{
  is_prefix, first, shifted, find_from, replace_at, replace_loop, replace,
}

-- The text read once from left to right: an occurrence gives `rpl_to` and its characters are skipped, any
-- other character stays.
unfoldable pub substitute : Text → Text → ℕ → Text → Text
substitute rpl_from rpl_to skip [] = []
substitute rpl_from rpl_to (suc skip) (c ∷ t) = substitute rpl_from rpl_to skip t
substitute rpl_from rpl_to zero (c ∷ t) =
    let past = substitute rpl_from rpl_to (length rpl_from - 1) t in
    let on = substitute rpl_from rpl_to 0 t in
    if is_prefix rpl_from (c ∷ t) then rpl_to ++ past else c ∷ on

drop-prefix : (u v : Text) → drop (length u) (u ++ v) ≡ v
drop-prefix [] v = refl
drop-prefix (c ∷ u) v = drop-prefix u v

is_prefix-append : (p t : Text) → is_prefix p t ≡ true → (post : Text) × (t ≡ p ++ post)
is_prefix-append [] t h = (t, refl)
is_prefix-append (c ∷ p) [] h = absurd cc
is_prefix-append (c ∷ p) (d ∷ t) h = elim (Bool-cases (c == d)) [
  | inl same ↦
      let (post, e) = is_prefix-append p t (rw same at h) in
      let c_is_d : c ≡ d = ground (arith, same) in (post, cc)
  | inr other ↦ absurd (cc (rw other at h))
]

substitute-skip :
    (rpl_from rpl_to u t : Text)
    → substitute rpl_from rpl_to (length u) (u ++ t) ≡ substitute rpl_from rpl_to 0 t
unfolding substitute
substitute-skip rpl_from rpl_to [] t = refl
substitute-skip rpl_from rpl_to (c ∷ u) t = substitute-skip rpl_from rpl_to u t

find_from-append : (p u t : Text) → find_from p (u ++ t) (length u) ≡ shifted (length u) (first p t)
unfolding find_from
find_from-append p u t =
    let inside : ltb (length (u ++ t)) (length u) ≡ false = ground (arith, length-append u t) in
    rw (inside, drop-prefix u t) refl

one_less : (n : ℕ) → suc n - 1 ≡ n
one_less n = omega arith

module _ (f : ℕ) (p : Text) (rpl_to : Text) where
  no_occurrence : (t : Text) → first (f ∷ p) t ≡ none → substitute (f ∷ p) rpl_to 0 t ≡ t
  unfolding substitute first
  no_occurrence [] h = refl
  no_occurrence (c ∷ t) h = elim (Bool-cases (is_prefix (f ∷ p) (c ∷ t))) [
    | inl here ↦ absurd (cc (rw here at h))
    | inr not_here ↦ elim (Option-cases (first (f ∷ p) t)) [
      | inl nowhere ↦ rw not_here (ap (λ u. c ∷ u) (no_occurrence t nowhere))
      | inr (k, later) ↦ absurd (cc (rw (not_here, later) at h))
    ]
  ]

  -- What stands before the first occurrence and after it.
  abbrev Split : ℕ → Text → Type 0
  Split k t =
      (pre : Text) × (post : Text) × (t ≡ pre ++ ((f ∷ p) ++ post))
      × (length pre ≡ k)
      × (substitute (f ∷ p) rpl_to 0 t ≡ pre ++ (rpl_to ++ substitute (f ∷ p) rpl_to 0 post))

  first-Split : (t : Text) (k : ℕ) → first (f ∷ p) t ≡ some k → Split k t
  unfolding substitute first
  first-Split [] k h = absurd cc
  first-Split (c ∷ t) k h = elim (Bool-cases (is_prefix (f ∷ p) (c ∷ t))) [
    | inl here ↦
        let (post, e) = is_prefix-append (f ∷ p) (c ∷ t) here in
        let rest : t ≡ p ++ post = cc in
        let at_0 : some 0 ≡ some k = rw here at h in
        (
          [],
          post,
          e,
          cc,
          rw (here, one_less (length p))
              (ap (λ u. rpl_to ++ u) (rw rest (substitute-skip (f ∷ p) rpl_to p post))),
        )
    | inr not_here ↦ elim (Option-cases (first (f ∷ p) t)) [
      | inl nowhere ↦ absurd (cc (rw (not_here, nowhere) at h))
      | inr (j, later) ↦
          let (pre, post, e, n, same) = first-Split t j later in
          let at_j : some (suc j) ≡ some k = rw (not_here, later) at h in
          (c ∷ pre, post, ap (λ u. c ∷ u) e, cc, rw not_here (ap (λ u. c ∷ u) same))
    ]
  ]

  all_assoc : (a b c d : Text) → ((a ++ b) ++ c) ++ d ≡ a ++ (b ++ (c ++ d))
  all_assoc a b c d = append_assoc (a ++ b) c d ∙ append_assoc a b (c ++ d)

  replaced :
      (u pre post : Text)
      → replace_at (length (u ++ pre)) (length (f ∷ p)) rpl_to (u ++ (pre ++ ((f ∷ p) ++ post)))
        ≡ ((u ++ pre) ++ rpl_to) ++ post
  replaced u pre post =
      rw
        (
          sym (append_assoc u pre ((f ∷ p) ++ post)),
          take-append (u ++ pre) ((f ∷ p) ++ post),
          sym (length-append (u ++ pre) (f ∷ p)),
          sym (append_assoc (u ++ pre) (f ∷ p) post),
          drop-prefix ((u ++ pre) ++ (f ∷ p)) post,
        )
        refl

  replace_loop-substitute :
      (fuel : ℕ) (u t : Text)
      → length t < fuel
      → replace_loop fuel (f ∷ p) rpl_to (length u) (u ++ t)
        ≡ some (u ++ substitute (f ∷ p) rpl_to 0 t)
  unfolding replace_loop
  replace_loop-substitute zero u t h = absurd (omega arith)
  replace_loop-substitute (suc fuel) u t h = elim (Option-cases (first (f ∷ p) t)) [
    | inl nowhere ↦ rw (find_from-append (f ∷ p) u t, nowhere, no_occurrence t nowhere) refl
    | inr (k, found) ↦
        let (pre, post, e, n, same) = first-Split t k found in
        let v = (u ++ pre) ++ rpl_to in
        let found_at : length u + k ≡ length (u ++ pre) = omega (arith, n, length-append u pre) in
        let next : length u + k + length rpl_to ≡ length v =
          omega (arith, found_at, length-append (u ++ pre) rpl_to) in
        let text : replace_at (length u + k) (length (f ∷ p)) rpl_to (u ++ t) ≡ v ++ post =
          rw (found_at, e) (replaced u pre post) in
        let shorter : length post < fuel = omega (
          arith,
          h,
          ap length e,
          length-append pre ((f ∷ p) ++ post),
          length-append (f ∷ p) post,
        ) in
        let on = replace_loop-substitute fuel v post shorter in
        rw (find_from-append (f ∷ p) u t, found, text, next, on, same)
          (ap some (all_assoc u pre rpl_to (substitute (f ∷ p) rpl_to 0 post)))
  ]

-- For a text that is not empty, the loop of replace ends, and the result is `base` with each occurrence
-- replaced, the occurrences taken from left to right without overlap and what was put in not looked at
-- again.
pub replace-substitute :
    (base rpl_from rpl_to : Text)
    → rpl_from ≢ []
    → replace base rpl_from rpl_to ≡ some (substitute rpl_from rpl_to 0 base)
unfolding replace
replace-substitute base [] rpl_to h = absurd (h refl)
replace-substitute base (f ∷ p) rpl_to h =
    replace_loop-substitute f p rpl_to (suc (length base)) [] base (omega arith)

first_empty : (t : Text) → first [] t ≡ some 0
unfolding first
first_empty [] = refl
first_empty (c ∷ t) = refl

-- For an empty text the loop never ends, whatever is put in.
pub replace_loop_empty :
    (fuel : ℕ) (rpl_to u t : Text) → replace_loop fuel [] rpl_to (length u) (u ++ t) ≡ none
unfolding replace_loop
replace_loop_empty zero rpl_to u t = refl
replace_loop_empty (suc fuel) rpl_to u t =
    let next : length u + 0 + length rpl_to ≡ length (u ++ rpl_to) =
      omega (arith, length-append u rpl_to) in
    let at_end : length u + 0 ≡ length u = omega arith in
    let text : replace_at (length u + 0) 0 rpl_to (u ++ t) ≡ (u ++ rpl_to) ++ t =
      rw (at_end, at_end, take-append u t, drop-prefix u t) refl in
    rw (find_from-append [] u t, first_empty t, text, next)
      (replace_loop_empty fuel rpl_to (u ++ rpl_to) t)
