-- ===== src/Viewer/Frames/Deques.antt =====
-- The operations on deques commute with `map`.
use v3xctrl.Base.{
  ℕ, zero, suc, ◌≡◌, refl, sym, ap, ◌∙◌, Option, none, some, List, [], ◌∷◌, ◌++◌, map, length, drop,
  nat_eq, arith,
}
use mathlib.Core.List.{map-append}
use v3xctrl.Viewer.Frames.{append_bounded, head?, last?, or_keep}
use v3xctrl.Viewer.Frames.Player.{map?}

module _ {ℓ κ} {A : Type ℓ} {B : Type κ} (f : A → B) where
  pub map-drop : (n : ℕ) (xs : List A) → map f (drop n xs) ≡ drop n (map f xs)
  map-drop zero xs = refl
  map-drop (suc n) [] = refl
  map-drop (suc n) (x ∷ xs) = map-drop n xs

  pub length-map : (xs : List A) → length (map f xs) ≡ length xs
  length-map [] = refl
  length-map (x ∷ xs) = ap suc (length-map xs)

  pub head?-map : (xs : List A) → head? (map f xs) ≡ map? f (head? xs)
  head?-map [] = refl
  head?-map (x ∷ xs) = refl

  pub last?-map : (xs : List A) → last? (map f xs) ≡ map? f (last? xs)
  last?-map [] = refl
  last?-map (x ∷ xs) = ground (arith, last?-map xs)

  pub or_keep-map : (a b : Option A) → or_keep (map? f a) (map? f b) ≡ map? f (or_keep a b)
  or_keep-map a none = refl
  or_keep-map a (some b) = refl

  pub append_bounded-map :
      (n : ℕ) (x : A) (xs : List A)
      → append_bounded n (f x) (map f xs) ≡ map f (append_bounded n x xs)
  append_bounded-map n x xs =
      let same : map f (xs ++ (x ∷ [])) ≡ map f xs ++ (f x ∷ []) = map-append f xs (x ∷ []) in
      let len : length (map f xs ++ (f x ∷ [])) ≡ length (xs ++ (x ∷ [])) =
        ap length (sym same) ∙ length-map (xs ++ (x ∷ [])) in
      rw len (rw (← same) (sym (map-drop _ (xs ++ (x ∷ [])))))

pub drop-nil {ℓ} : {A : Type ℓ} (n : ℕ) → drop {A = A} n [] ≡ []
drop-nil zero = refl
drop-nil (suc n) = refl

pub drop-drop_one {ℓ} : {A : Type ℓ} (n : ℕ) (xs : List A) → drop n (drop 1 xs) ≡ drop (suc n) xs
drop-drop_one n [] = drop-nil n
drop-drop_one n (x ∷ xs) = refl
