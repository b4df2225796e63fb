-- ===== src/Prelude/Sorting.antt =====
-- `sort` and `dedup`, and predicates on what they return.
use mathlib.Core.Bool.{Bool, true, false}
use mathlib.Core.List.{List, [], ◌∷◌, map}
use tunmux.Prelude.Tests.{if◌then◌else◌}
use tunmux.Prelude.Lists.{All}
use tunmux.Prelude.Equality.{Eq, ◌==◌}

module _ {ℓ} {A : Type ℓ} (before : A → A → Bool) where
  abbrev pub insert : A → List A → List A
  insert a [] = a ∷ []
  insert a (x ∷ xs) = let rest = insert a xs in if before a x then a ∷ x ∷ xs else x ∷ rest

  -- stable, as the program's
  abbrev pub sort_by : List A → List A
  sort_by [] = []
  sort_by (x ∷ xs) = insert x (sort_by xs)

module _ {ℓ} {A : Type ℓ} ⦃e : Eq A⦄ where
  -- equal neighbours but the first go
  abbrev pub dedup : List A → List A
  dedup [] = []
  dedup (x ∷ []) = x ∷ []
  dedup (x ∷ y ∷ xs) = let rest = dedup (y ∷ xs) in if x == y then rest else x ∷ rest

module _ {A : Type 0} (P : A → Type 0) where
  pub All-if : (b : Bool) (xs ys : List A) → All P xs → All P ys → All P (if b then xs else ys)
  All-if true xs ys h k = h
  All-if false xs ys h k = k

  pub All-map : {B : Type 0} (f : B → A) (xs : List B) → All (λ b. P (f b)) xs → All P (map f xs)
  All-map f [] h = tt
  All-map f (x ∷ xs) (h, hs) = (h, All-map f xs hs)

  All-insert :
      (before : A → A → Bool) (a : A) (xs : List A) → P a → All P xs → All P (insert before a xs)
  All-insert before a [] p h = (p, tt)
  All-insert before a (x ∷ xs) p (h, hs) =
      All-if (before a x) _ _ (p, (h, hs)) (h, All-insert before a xs p hs)

  pub All-sort_by : (before : A → A → Bool) (xs : List A) → All P xs → All P (sort_by before xs)
  All-sort_by before [] h = tt
  All-sort_by before (x ∷ xs) (h, hs) = All-insert before x _ h (All-sort_by before xs hs)

  pub All-dedup : ⦃e : Eq A⦄ (xs : List A) → All P xs → All P (dedup xs)
  All-dedup [] h = tt
  All-dedup (x ∷ []) h = h
  All-dedup (x ∷ y ∷ xs) (h, hs) =
      let rest = All-dedup (y ∷ xs) hs in All-if (x == y) _ _ rest (h, rest)
