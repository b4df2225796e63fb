-- ===== src/Prelude/Members.antt =====
-- Membership of a list, and the iterators that the program writes in terms of it.
use mathlib.Core.Path.{◌≡◌, refl, subst, sym}
use mathlib.Core.Logic.{◌↔◌, ◌⊎◌, inl, inr}
use mathlib.Core.Bool.{Bool, true, false}
use mathlib.Core.List.{List, [], ◌∷◌, ◌++◌, reverse, reverse-cons}
use mathlib.Core.Option.{none, some}
use native.Mathlib.Omega.{arith}
use tunmux.Prelude.Tests.{if◌then◌else◌}
use tunmux.Prelude.Lists.{All, find, retain}
use tunmux.Prelude.Equality.{Eq, contains}

module _ {A : Type 0} where
  abbrev pub Member : A → List A → Type 0
  Member a [] = ⊥
  Member a (x ∷ xs) = (x ≡ a) ⊎ Member a xs

  pub append-Member : (a : A) (xs ys : List A) → Member a (xs ++ ys) → Member a xs ⊎ Member a ys
  append-Member a [] ys m = inr m
  append-Member a (x ∷ xs) ys (inl e) = inl (inl e)
  append-Member a (x ∷ xs) ys (inr m) = elim (append-Member a xs ys m) [
    | inl l ↦ inl (inr l)
    | inr r ↦ inr r
  ]

  pub Member-append : (a : A) (xs ys : List A) → Member a xs ⊎ Member a ys → Member a (xs ++ ys)
  Member-append a [] ys (inl m) = absurd m
  Member-append a [] ys (inr m) = m
  Member-append a (x ∷ xs) ys (inl (inl e)) = inl e
  Member-append a (x ∷ xs) ys (inl (inr m)) = inr (Member-append a xs ys (inl m))
  Member-append a (x ∷ xs) ys (inr m) = inr (Member-append a xs ys (inr m))

  -- What `retain` keeps was there and passes the test.
  pub retain-Member :
      (p : A → Bool) (a : A) (xs : List A) → Member a (retain p xs) → Member a xs × (p a ≡ true)
  retain-Member p a [] m = absurd m
  retain-Member p a (x ∷ xs) m = by_test (p x) refl m (retain-Member p a xs)
    where
      by_test :
          (b : Bool)
          → p x ≡ b
          → Member a (if b then x ∷ retain p xs else retain p xs)
          → (Member a (retain p xs) → Member a xs × (p a ≡ true))
          → Member a (x ∷ xs) × (p a ≡ true)
      by_test true h (inl e) k = (inl e, subst (λ y. p y ≡ true) e h)
      by_test true h (inr r) k = (inr (k r).0, (k r).1)
      by_test false h r k = (inr (k r).0, (k r).1)

  pub find-none :
      (p : A → Bool) (a : A) (xs : List A) → find p xs ≡ none → Member a xs → p a ≡ false
  find-none p a [] h m = absurd m
  find-none p a (x ∷ xs) h (inl e) = subst (λ y. p y ≡ false) e (head_refused (p x) h)
    where
      head_refused : (b : Bool) → (if b then some x else find p xs) ≡ none → b ≡ false
      head_refused true h = absurd (cc)
      head_refused false h = refl
  find-none p a (x ∷ xs) h (inr m) = find-none p a xs (tail_searched (p x) h) m
    where
      tail_searched : (b : Bool) → (if b then some x else find p xs) ≡ none → find p xs ≡ none
      tail_searched true h = absurd (cc)
      tail_searched false h = h

  pub All-Member : (P : A → Type 0) (a : A) (xs : List A) → All P xs → Member a xs → P a
  All-Member P a [] h m = absurd m
  All-Member P a (x ∷ xs) (h, hs) (inl e) = subst P e h
  All-Member P a (x ∷ xs) (h, hs) (inr m) = All-Member P a xs hs m

  pub All-of_members : (P : A → Type 0) (xs : List A) → ((a : A) → Member a xs → P a) → All P xs
  All-of_members P [] h = tt
  All-of_members P (x ∷ xs) h = (h x (inl refl), All-of_members P xs (λ a m. h a (inr m)))

  pub All-append : (P : A → Type 0) (xs ys : List A) → All P xs → All P ys → All P (xs ++ ys)
  All-append P [] ys h k = k
  All-append P (x ∷ xs) ys (h, hs) k = (h, All-append P xs ys hs k)

  pub All-retain : (P : A → Type 0) (p : A → Bool) (xs : List A) → All P xs → All P (retain p xs)
  All-retain P p xs h =
      All-of_members P (retain p xs) (λ a m. All-Member P a xs h (retain-Member p a xs m).0)

  pub Member-reverse : (a : A) (xs : List A) → Member a xs → Member a (reverse xs)
  Member-reverse a [] m = absurd m
  Member-reverse a (x ∷ xs) (inl e) =
      subst (Member a) (sym (reverse-cons x xs))
        (Member-append a (reverse xs) (x ∷ []) (inr (inl e)))
  Member-reverse a (x ∷ xs) (inr m) =
      subst (Member a) (sym (reverse-cons x xs))
        (Member-append a (reverse xs) (x ∷ []) (inl (Member-reverse a xs m)))

module _ {A : Type 0} ⦃e : Eq A⦄ where
  pub contains_iff : (xs : List A) (a : A) → (contains xs a ≡ true) ↔ Member a xs
  contains_iff [] a = (λ h. cc, λ m. absurd m)
  contains_iff (x ∷ xs) a = ground (arith, e.is_eq_iff x a, contains_iff xs a)
