-- ===== src/Exec/Succeeds.antt =====
-- Steps that do not end early.
use tunmux.Exec.{Exec, Outcome, attempt, continue, done, fail, gets, pure, ◌>>=◌}
use tunmux.Prelude.{refl, ◌≡◌}

pub record Succeeds {ℓ} {S E A : Type ℓ} (m : Exec S E A) : Type ℓ where
  pub from : (s : S) → (a : A) × ((m s).0 ≡ done a)

module _ {ℓ} {S E A : Type ℓ} where
  pub Succeeds-pure : (a : A) → Succeeds {S = S} {E = E} (pure a)
  unfolding pure
  Succeeds-pure a = record { from = λ s. (a, refl) }

  pub Succeeds-gets : (f : S → A) → Succeeds {S = S} {E = E} (gets f)
  unfolding gets
  Succeeds-gets f = record { from = λ s. (f s, refl) }

  pub Succeeds-attempt : (m : Exec S E A) → Succeeds (attempt m)
  unfolding attempt
  Succeeds-attempt m = record { from = λ s. let (r, t) = m s in (r, refl) }

module _ {ℓ} {S E A B : Type ℓ} where
  continue-Succeeds :
      (r : Outcome E A) (f : A → Exec S E B) (t : S)
      → (a : A) × (r ≡ done a)
      → ((a : A) → Succeeds (f a))
      → (b : B) × ((continue r f t).0 ≡ done b)
  continue-Succeeds (done a) f t h k = (k a).from t
  continue-Succeeds (fail x) f t (a, h) k = absurd (cc)

  pub Succeeds-bind :
      (m : Exec S E A) (f : A → Exec S E B)
      → Succeeds m
      → ((a : A) → Succeeds (f a))
      → Succeeds (m >>= f)
  unfolding ◌>>=◌
  Succeeds-bind m f h k = record { from = λ s. continue-Succeeds (m s).0 f (m s).1 (h.from s) k }
