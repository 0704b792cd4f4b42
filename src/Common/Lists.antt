-- ===== src/Common/Lists.antt =====
-- Lists measured and indexed by native numbers, under the library's names, and the selection of
-- the elements that pass a Boolean test.
use Prim.Native.Nat.{ℕ, zero, suc, ◌+◌, ◌≤◌, ◌<◌, min}
use mathlib.Core.Bool.{Bool, true, Bool-set}
use mathlib.Core.List.{
  List, [], ◌∷◌, ◌++◌, map, Mem, Sublist, Mem-prop, mem-cons_self, mem-cons_of_mem, nil-sublist,
  eq-or-mem_of_mem-cons, not-mem-nil, filter_map-eq-map,
}
use mathlib.Core.List.Sublist
use mathlib.Core.Logic.Or
use mathlib.Core.Option.{some}
use mathlib.Core.Logic.{◌≢◌, inl, inr}
use mathlib.Core.Path.{◌≡◌, refl, ap, subst₂}
use native.Mathlib.Omega.{arith}
use ss_p2p_node_controller.Common.Tests.{if◌then◌else◌, Bool-cases}

module _ {ℓ} {A : Type ℓ} where
  abbrev pub length : List A → ℕ
  length [] = 0
  length (x ∷ xs) = suc (length xs)

  abbrev pub get_or : List A → ℕ → A → A
  get_or [] i d = d
  get_or (x ∷ xs) zero d = x
  get_or (x ∷ xs) (suc i) d = get_or xs i d

  abbrev pub set : List A → ℕ → A → List A
  set [] i v = []
  set (x ∷ xs) zero v = v ∷ xs
  set (x ∷ xs) (suc i) v = x ∷ set xs i v

  abbrev pub take : ℕ → List A → List A
  take zero xs = []
  take (suc n) [] = []
  take (suc n) (x ∷ xs) = x ∷ take n xs

  -- The elements that pass a Boolean test, in order.
  abbrev pub select : (A → Bool) → List A → List A
  select p [] = []
  select p (x ∷ xs) = if p x then x ∷ select p xs else select p xs

  pub length-append : (xs ys : List A) → length (xs ++ ys) ≡ length xs + length ys
  length-append [] ys = omega arith
  length-append (x ∷ xs) ys = omega (arith, length-append xs ys)

  pub length-set : (xs : List A) (i : ℕ) (v : A) → length (set xs i v) ≡ length xs
  length-set [] i v = refl
  length-set (x ∷ xs) zero v = refl
  length-set (x ∷ xs) (suc i) v = ap suc (length-set xs i v)

  pub get_or-set_self :
      (xs : List A) (i : ℕ) (v d : A) → i < length xs → get_or (set xs i v) i d ≡ v
  get_or-set_self [] i v d h = elim h [ ]
  get_or-set_self (x ∷ xs) zero v d h = refl
  get_or-set_self (x ∷ xs) (suc i) v d h = get_or-set_self xs i v d (omega arith)

  pub set-get_or : (xs : List A) (i : ℕ) (d : A) → set xs i (get_or xs i d) ≡ xs
  set-get_or [] i d = refl
  set-get_or (x ∷ xs) zero d = refl
  set-get_or (x ∷ xs) (suc i) d = ap (λ ys. x ∷ ys) (set-get_or xs i d)

  pub get_or-set_ne :
      (xs : List A) (i j : ℕ) (v d : A) → i ≢ j → get_or (set xs i v) j d ≡ get_or xs j d
  get_or-set_ne [] i j v d h = refl
  get_or-set_ne (x ∷ xs) zero zero v d h = absurd (h refl)
  get_or-set_ne (x ∷ xs) zero (suc j) v d h = refl
  get_or-set_ne (x ∷ xs) (suc i) zero v d h = refl
  get_or-set_ne (x ∷ xs) (suc i) (suc j) v d h = get_or-set_ne xs i j v d (λ e. h (ap suc e))

  pub length-take : (n : ℕ) (xs : List A) → length (take n xs) ≡ min n (length xs)
  length-take zero xs = omega arith
  length-take (suc n) [] = omega arith
  length-take (suc n) (x ∷ xs) = omega (arith, length-take n xs)

  pub take_of_length-le : (n : ℕ) (xs : List A) → length xs ≤ n → take n xs ≡ xs
  take_of_length-le (suc k) [] short = refl
  take_of_length-le zero [] short = refl
  take_of_length-le (suc k) (y ∷ ys) short = ap (◌∷◌ y) (take_of_length-le k ys (omega arith))
  take_of_length-le zero (y ∷ ys) short = absurd (omega arith)

  pub take-append : (xs ys : List A) → take (length xs) (xs ++ ys) ≡ xs
  take-append [] ys = refl
  take-append (x ∷ xs) ys = ap (λ zs. x ∷ zs) (take-append xs ys)

  pub take-sublist : (n : ℕ) (xs : List A) → Sublist (take n xs) xs
  take-sublist zero xs = nil-sublist xs
  take-sublist (suc n) [] = nil-sublist []
  take-sublist (suc n) (x ∷ xs) = Sublist.cons-cons x (take-sublist n xs)

  pub select-sublist : (p : A → Bool) (xs : List A) → Sublist (select p xs) xs
  select-sublist p [] = nil-sublist []
  select-sublist p (x ∷ xs) = elim (Bool-cases (p x)) [
    | inl e ↦ rw e (Sublist.cons-cons x (select-sublist p xs))
    | inr e ↦ rw e (Sublist.cons x (select-sublist p xs))
  ]

  pub mem-select_of_mem :
      (p : A → Bool) {a : A} (xs : List A) → p a ≡ true → Mem a xs → Mem a (select p xs)
  mem-select_of_mem p [] h m = absurd (not-mem-nil m)
  mem-select_of_mem p {a} (x ∷ xs) h m =
      Or.elim Mem-prop (eq-or-mem_of_mem-cons m) (λ here. rw (← here, h) mem-cons_self)
        (λ later. elim (Bool-cases (p x)) [
          | inl e ↦ rw e (mem-cons_of_mem x (mem-select_of_mem p xs h later))
          | inr e ↦ rw e (mem-select_of_mem p xs h later)
        ])

  pub test_of_mem-select : (p : A → Bool) {a : A} (xs : List A) → Mem a (select p xs) → p a ≡ true
  test_of_mem-select p [] m = absurd (not-mem-nil m)
  test_of_mem-select p {a} (x ∷ xs) m = elim (Bool-cases (p x)) [
    | inl e ↦
        Or.elim (Bool-set _ _) (eq-or-mem_of_mem-cons (rw e at m)) (λ here. rw here e)
          (test_of_mem-select p xs)
    | inr e ↦ test_of_mem-select p xs (rw e at m)
  ]

module _ {ℓ κ} {A : Type ℓ} {B : Type κ} where
  pub length-map : (f : A → B) (xs : List A) → length (map f xs) ≡ length xs
  length-map f [] = refl
  length-map f (x ∷ xs) = ap suc (length-map f xs)

  pub map-sublist : (f : A → B) (xs ys : List A) → Sublist xs ys → Sublist (map f xs) (map f ys)
  map-sublist f xs ys s =
      subst₂ Sublist (filter_map-eq-map f xs) (filter_map-eq-map f ys)
        (Sublist.filter_map (λ (x : A). some (f x)) s)

module _ {ℓ} {A : Type ℓ} where
  -- Lists of one length that agree at every index are equal.
  pub eq_of_get_or :
      (xs ys : List A) (d : A)
      → length xs ≡ length ys
      → ((i : ℕ) → i < length xs → get_or xs i d ≡ get_or ys i d)
      → xs ≡ ys
  eq_of_get_or [] [] d h g = refl
  eq_of_get_or [] (y ∷ ys) d h g = absurd (omega arith)
  eq_of_get_or (x ∷ xs) [] d h g = absurd (omega arith)
  eq_of_get_or (x ∷ xs) (y ∷ ys) d h g =
      let head_eq : x ≡ y = g 0 (omega arith) in
      let tail_eq : xs ≡ ys =
        eq_of_get_or xs ys d (omega arith) (λ i hi. g (suc i) (omega arith)) in
      cc
