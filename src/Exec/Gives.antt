-- ===== src/Exec/Gives.antt =====
-- What a step ends with, when it ends well.
use mathlib.Core.Path.{subst}
use tunmux.Exec.{Exec, bind-done, done, pure, raise, ◌>>=◌}
use tunmux.Prelude.{Bool, false, if◌then◌else◌, refl, true, ◌≡◌}

pub record Gives {ℓ} {S E A : Type ℓ} (P : A → Type ℓ) (m : Exec S E A) : Type ℓ where
  pub from : (s : S) (a : A) → (m s).0 ≡ done a → P a

module _ {ℓ} {S E A : Type ℓ} {P : A → Type ℓ} where
  pub Gives-pure : (a : A) → P a → Gives {S = S} {E = E} P (pure a)
  unfolding pure
  Gives-pure a h = record { from = λ s b e. let same : a ≡ b = cc in subst P same h }

  pub Gives-raise : (x : E) → Gives {S = S} {A = A} P (raise x)
  unfolding raise
  Gives-raise x = record { from = λ s b e. absurd (cc) }

  pub Gives-if :
      (b : Bool) (m n : Exec S E A)
      → (b ≡ true → Gives P m)
      → (b ≡ false → Gives P n)
      → Gives P (if b then m else n)
  Gives-if true m n h k = h refl
  Gives-if false m n h k = k refl

module _ {ℓ} {S E A B : Type ℓ} {Q : A → Type ℓ} {P : B → Type ℓ} where
  pub Gives-bind :
      (m : Exec S E A) (f : A → Exec S E B)
      → Gives Q m
      → ((a : A) → Q a → Gives P (f a))
      → Gives P (m >>= f)
  Gives-bind m f k h = record {
    from = λ s b e.
        let (a, first, second) = bind-done m f s b e in (h a (k.from s a first)).from _ b second;
  }

module _ {ℓ} {S E A B : Type ℓ} {P : B → Type ℓ} where
  pub Gives-after :
      (m : Exec S E A) (f : A → Exec S E B) → ((a : A) → Gives P (f a)) → Gives P (m >>= f)
  Gives-after m f h = record {
    from = λ s b e. let (a, first, second) = bind-done m f s b e in (h a).from _ b second;
  }
