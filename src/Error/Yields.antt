-- ===== src/Error/Yields.antt =====
-- What a fallible computation returns when it succeeds.
use mathlib.Core.Path.{subst}
use tunmux.Error.{AppError, Result, err, ok, ◌>>=◌}
use tunmux.Prelude.{Bool, false, if◌then◌else◌, refl, true, ◌≡◌}

-- if it succeeds, then with a value of that kind
pub record Yields {ℓ} {A : Type ℓ} (P : A → Type 0) (r : Result A) : Type ℓ where
  pub from : (a : A) → r ≡ ok a → P a

module _ {ℓ} {A : Type ℓ} {P : A → Type 0} where
  pub Yields-ok : (a : A) → P a → Yields P (ok a)
  Yields-ok a h = record { from = λ b e. let same : a ≡ b = cc in subst P same h }

  pub Yields-err : (x : AppError) → Yields P (err x)
  Yields-err x = record { from = λ b e. absurd (cc) }

  pub Yields-if :
      (b : Bool) (m n : Result A) → Yields P m → Yields P n → Yields P (if b then m else n)
  Yields-if true m n h k = h
  Yields-if false m n h k = k

  pub Yields-unless :
      (b : Bool) (m n : Result A)
      → Yields P m
      → (b ≡ false → Yields P n)
      → Yields P (if b then m else n)
  Yields-unless true m n h k = h
  Yields-unless false m n h k = k refl

module _ {ℓ} {A B : Type ℓ} {P : A → Type 0} {Q : B → Type 0} where
  pub Yields-bind :
      (m : Result A) (f : A → Result B)
      → Yields P m
      → ((a : A) → P a → Yields Q (f a))
      → Yields Q (m >>= f)
  Yields-bind (ok a) f h k = k a (h.from a refl)
  Yields-bind (err x) f h k = Yields-err x

abbrev pub Any : {A : Type 0} → A → Type 0
Any a = Unit

pub Any-Yields : {A : Type 0} (r : Result A) → Yields Any r
Any-Yields r = record { from = λ a e. tt }
