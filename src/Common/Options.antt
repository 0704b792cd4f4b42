-- ===== src/Common/Options.antt =====
-- Chains of steps that may fail, for do blocks, and a loop over a list of which each step may fail.
use mathlib.Core.List.{List, [], ◌∷◌, ◌++◌, map, Mem, mem-cons_self, mem-cons_of_mem}
use mathlib.Core.Logic.{ite}
use mathlib.Core.Option.{Option, none, some}
use ss_p2p_node_controller.Common.Tests.{if◌then◌else◌}
use mathlib.Core.Bool.{Bool, true, false}
use mathlib.Core.Path.{◌≡◌, refl}

infixl 5 ◌>>=◌
abbrev pub ◌>>=◌ {ℓ κ} : {A : Type ℓ} {B : Type κ} → Option A → (A → Option B) → Option B
none >>= f = none
some a >>= f = f a

module _ {ℓ κ} {A : Type ℓ} {B : Type κ} where
  -- A chain that gives a result got one from its first step.
  pub bind-some :
      (o : Option A) (f : A → Option B) (b : B)
      → (o >>= f) ≡ some b
      → (a : A) × (o ≡ some a) × (f a ≡ some b)
  bind-some none f b h = absurd cc
  bind-some (some a) f b h = (a, refl, h)

module _ {ℓ κ} {A : Type ℓ} {B : Type κ} where
  unfoldable pub traverse : (A → Option B) → List A → Option (List B)
  traverse f [] = some []
  traverse f (x ∷ xs) = do y ← f x; ys ← traverse f xs; some (y ∷ ys)

  pub traverse-map :
      (f : A → Option B) (g : B → A) (ys : List B)
      → ((y : B) → Mem y ys → f (g y) ≡ some y)
      → traverse f (map g ys) ≡ some ys
  unfolding traverse
  traverse-map f g [] h = refl
  traverse-map f g (y ∷ ys) h =
      rw (h y mem-cons_self, traverse-map f g ys (λ z m. h z (mem-cons_of_mem y m)))

  pub traverse-append :
      (f : A → Option B) (xs zs : List A) (ys ws : List B)
      → traverse f xs ≡ some ys
      → traverse f zs ≡ some ws
      → traverse f (xs ++ zs) ≡ some (ys ++ ws)
  unfolding traverse
  traverse-append f [] zs ys ws h g = let e : [] ≡ ys = cc in rw (← e) g
  traverse-append f (x ∷ xs) zs ys ws h g =
      let (y, here, rest) = bind-some (f x) _ _ h in
      let (ys', later, e) = bind-some (traverse f xs) _ _ rest in
      let tail = traverse-append f xs zs ys' ws later g in
      let e' : y ∷ ys' ≡ ys = cc in rw (here, tail, ← e')

-- What holds of the state whenever a step that may fail gives one.
module _ {S X : Type 0} (P : S → Type 0) where
  unfoldable pub Always : Option (S × X) → Type 0
  Always none = Unit
  Always (some (s, x)) = P s

  pub Always-gives : (s : S) (x : X) → P s → Always (some (s, x))
  unfolding Always
  Always-gives s x h = h

  pub Always-bind :
      {A : Type 0} (o : Option A) (f : A → Option (S × X))
      → ((a : A) → Always (f a))
      → Always (o >>= f)
  unfolding Always
  Always-bind none f h = tt
  Always-bind (some a) f h = h a

  pub Always-if :
      (b : Bool) (x y : Option (S × X)) → Always x → Always y → Always (if b then x else y)
  Always-if true x y h g = h
  Always-if false x y h g = g

  pub Always-ite :
      {C : Type 0} (d : Dec C) (x y : Option (S × X)) → Always x → Always y → Always (ite d x y)
  Always-ite (yes c) x y h g = h
  Always-ite (no c) x y h g = g

  pub Always-some : (o : Option (S × X)) (s : S) (x : X) → o ≡ some (s, x) → Always o → P s
  unfolding Always
  Always-some o s x e h = rw e at h

module _ {S S' X X' : Type 0} (P : S → Type 0) (Q : S' → Type 0) where
  pub Always-then :
      (o : Option (S × X)) (f : S × X → Option (S' × X'))
      → Always P o
      → ((s : S) (x : X) → P s → Always Q (f (s, x)))
      → Always Q (o >>= f)
  unfolding Always
  Always-then none f h g = tt
  Always-then (some (s, x)) f h g = g s x h
