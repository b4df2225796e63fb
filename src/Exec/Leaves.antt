-- ===== src/Exec/Leaves.antt =====
-- What a step leaves of the state, whether it ends well or early, from a state of a kind.
use tunmux.Exec.{Exec, Outcome, continue, done, fail, ◌>>=◌}

pub record Leaves {ℓ} {S E A : Type ℓ} (P Q : S → Type ℓ) (m : Exec S E A) : Type ℓ where
  pub from : (s : S) → P s → Q (m s).1

module _ {ℓ} {S E A B : Type ℓ} {Q R : S → Type ℓ} where
  continue-Leaves :
      (r : Outcome E A) (f : A → Exec S E B) (t : S)
      → Q t
      → ((s : S) → Q s → R s)
      → ((a : A) → Leaves Q R (f a))
      → R (continue r f t).1
  continue-Leaves (done a) f t h w k = (k a).from t h
  continue-Leaves (fail x) f t h w k = w t h

module _ {ℓ} {S E A B : Type ℓ} {P Q R : S → Type ℓ} where
  pub Leaves-bind :
      (m : Exec S E A) (f : A → Exec S E B)
      → Leaves P Q m
      → ((s : S) → Q s → R s)
      → ((a : A) → Leaves Q R (f a))
      → Leaves P R (m >>= f)
  unfolding ◌>>=◌
  Leaves-bind m f h w k = record {
    from = λ s p. continue-Leaves (m s).0 f (m s).1 (h.from s p) w k;
  }
