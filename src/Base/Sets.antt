-- ===== src/Base/Sets.antt =====
-- Python's `set`: a list without repetition, read through its membership test.
use mathlib.Core.Path.{◌≡◌, refl}
use mathlib.Core.Bool.{Bool, true, false, not, ◌&&◌, ◌||◌}
use mathlib.Core.List.{List, [], ◌∷◌, ◌++◌}
use native.Mathlib.Omega.{arith}
use v3xctrl.Base.Tests.{if◌then◌else◌}
use v3xctrl.Base.Equality.{PyEq, ◌==◌}

module _ {ℓ} {A : Type ℓ} ⦃e : PyEq A⦄ where
  -- a in s
  unfoldable pub contains : A → List A → Bool
  contains a [] = false
  contains a (x ∷ s) = x == a || contains a s

  -- s.add(a)
  unfoldable pub add : A → List A → List A
  add a s = if contains a s then s else s ++ (a ∷ [])

  -- s.discard(a)
  unfoldable pub discard : A → List A → List A
  discard a [] = []
  discard a (x ∷ s) = let rest = discard a s in if x == a then rest else x ∷ rest

  -- s | t
  unfoldable pub union : List A → List A → List A
  union s [] = s
  union s (a ∷ t) = union (add a s) t

  -- s - t
  unfoldable pub minus : List A → List A → List A
  minus s [] = s
  minus s (a ∷ t) = minus (discard a s) t

  -- every member of s is one of t
  unfoldable pub subset : List A → List A → Bool
  subset [] t = true
  subset (a ∷ s) t = contains a t && subset s t

  -- s == t
  unfoldable pub set_eq : List A → List A → Bool
  set_eq s t = subset s t && subset t s

  contains-append : (a : A) (s t : List A) → contains a (s ++ t) ≡ (contains a s || contains a t)
  unfolding contains
  contains-append a [] t = refl
  contains-append a (x ∷ s) t = ground (arith, contains-append a s t)

  pub contains-add : (a b : A) (s : List A) → contains b (add a s) ≡ (a == b || contains b s)
  unfolding add contains
  contains-add a b s = ground (arith, contains-append b s (a ∷ []), e.same_iff a b)

  pub contains-discard :
      (a b : A) (s : List A) → contains b (discard a s) ≡ (not (a == b) && contains b s)
  unfolding contains discard
  contains-discard a b [] = ground arith
  contains-discard a b (x ∷ s) =
      ground (arith, e.same_iff x a, e.same_iff x b, e.same_iff a b, contains-discard a b s)

  pub contains-union :
      (b : A) (s t : List A) → contains b (union s t) ≡ (contains b s || contains b t)
  unfolding union contains
  contains-union b s [] = ground arith
  contains-union b s (a ∷ t) = ground (arith, contains-union b (add a s) t, contains-add a b s)

  pub contains-minus :
      (b : A) (s t : List A) → contains b (minus s t) ≡ (contains b s && not (contains b t))
  unfolding minus contains
  contains-minus b s [] = ground arith
  contains-minus b s (a ∷ t) =
      ground (arith, contains-minus b (discard a s) t, contains-discard a b s)

  pub subset-contains :
      (a : A) (s t : List A) → subset s t ≡ true → contains a s ≡ true → contains a t ≡ true
  unfolding subset contains
  subset-contains a [] t h m = ground arith
  subset-contains a (x ∷ s) t h m = ground (arith, e.same_iff x a, subset-contains a s t)

  pub set_eq-contains : (a : A) (s t : List A) → set_eq s t ≡ true → contains a s ≡ contains a t
  unfolding set_eq
  set_eq-contains a s t h = ground (arith, subset-contains a s t, subset-contains a t s)
