-- ===== src/Base/Dict.antt =====
-- Python's `dict`, in insertion order: an association list over keys with `==`.
use mathlib.Core.Path.{◌≡◌, refl}
use mathlib.Core.Bool.{Bool}
use mathlib.Core.Option.{Option, none, some}
use mathlib.Core.List.{List, [], ◌∷◌, map}
use native.Mathlib.Omega.{arith}
use v3xctrl.Base.Tests.{if◌then◌else◌, is_some}
use v3xctrl.Base.Equality.{PyEq, ◌==◌, beq_refl}

abbrev pub Dict {ℓ κ} : Type ℓ → Type κ → Type (ℓ ⊔ κ)
Dict K V = List (K × V)

module _ {ℓ κ} {K : Type ℓ} {V : Type κ} where
  abbrev pub values : Dict K V → List V
  values d = map (λ p. p.1) d

  abbrev pub keys : Dict K V → List K
  keys d = map (λ p. p.0) d

module _ {ℓ κ} {K : Type ℓ} {V : Type κ} ⦃e : PyEq K⦄ where
  -- d.get(k)
  unfoldable pub get : K → Dict K V → Option V
  get k [] = none
  get k ((j, v) ∷ d) = if j == k then some v else get k d

  -- k in d
  abbrev pub has : K → Dict K V → Bool
  has k d = is_some (get k d)

  -- d[k] = v: a key that is there keeps its place.
  unfoldable pub put : K → V → Dict K V → Dict K V
  put k v [] = (k, v) ∷ []
  put k v ((j, w) ∷ d) = if j == k then (j, v) ∷ d else (j, w) ∷ put k v d

  -- d.pop(k, None), and `del d[k]` where the key is there.
  unfoldable pub pop : K → Dict K V → Dict K V
  pop k [] = []
  pop k ((j, w) ∷ d) = let rest = pop k d in if j == k then rest else (j, w) ∷ rest

  pub get-put :
      (k j : K) (v : V) (d : Dict K V) → get j (put k v d) ≡ (if k == j then some v else get j d)
  unfolding get put
  get-put k j v [] = refl
  get-put k j v ((i, w) ∷ d) =
      ground (arith, e.same_iff i k, e.same_iff i j, e.same_iff k j, get-put k j v d)

  pub get-pop : (k j : K) (d : Dict K V) → get j (pop k d) ≡ (if k == j then none else get j d)
  unfolding get pop
  get-pop k j [] = ground arith
  get-pop k j ((i, w) ∷ d) =
      ground (arith, e.same_iff i k, e.same_iff i j, e.same_iff k j, get-pop k j d)

  pub get-put_self : (k : K) (v : V) (d : Dict K V) → get k (put k v d) ≡ some v
  get-put_self k v d = ground (arith, get-put k k v d, beq_refl k)

  pub get-pop_self : (k : K) (d : Dict K V) → get k (pop k d) ≡ none
  get-pop_self k d = ground (arith, get-pop k k d, beq_refl k)
