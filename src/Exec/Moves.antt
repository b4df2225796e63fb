-- ===== src/Exec/Moves.antt =====
-- How a step may change the state: a relation between the state before and the state after, which
-- holds of a step that is made of others when it is reflexive and transitive.
use mathlib.Core.Path.{subst}
use tunmux.Exec.{Exec, Outcome, attempt, continue, done, fail, gets, or_return, pure, raise, ◌>>=◌}
use tunmux.Prelude.{Bool, false, if◌then◌else◌, refl, true, ◌∙◌, ◌≡◌}

-- `m` moves the state only along `R`, whether it ends well or early.
pub record Moves {ℓ} {S E A : Type ℓ} (R : S → S → Type ℓ) (m : Exec S E A) : Type ℓ where
  pub from : (s : S) → R s (m s).1

pub record IsPreorder {ℓ} {S : Type ℓ} (R : S → S → Type ℓ) : Type ℓ where
  pub stay : (s : S) → R s s
  pub chain : (s t u : S) → R s t → R t u → R s u

module _ {ℓ} {S : Type ℓ} {R : S → S → Type ℓ} (o : IsPreorder R) where
  module _ {E A : Type ℓ} where
    pub Moves-pure : (a : A) → Moves R (pure {E = E} a)
    unfolding pure
    Moves-pure a = record { from = o.stay }

    pub Moves-raise : (e : E) → Moves R (raise {A = A} e)
    unfolding raise
    Moves-raise e = record { from = o.stay }

    pub Moves-gets : (f : S → A) → Moves R (gets {E = E} f)
    unfolding gets
    Moves-gets f = record { from = o.stay }

    pub Moves-if :
        (b : Bool) (m n : Exec S E A)
        → (b ≡ true → Moves R m)
        → (b ≡ false → Moves R n)
        → Moves R (if b then m else n)
    Moves-if true m n km kn = km refl
    Moves-if false m n km kn = kn refl

    pub Moves-or_return :
        {F : Type ℓ} (f : E → F) (m : Exec S E A) → Moves R m → Moves R (or_return f m)
    unfolding or_return
    Moves-or_return f m k = record { from = λ s. k.from s }

    pub Moves-attempt : (m : Exec S E A) → Moves R m → Moves R (attempt m)
    unfolding attempt
    Moves-attempt m k = record { from = λ s. k.from s }

  module _ {E A B : Type ℓ} where
    continue-moves :
        (r : Outcome E A) (f : A → Exec S E B) (s t : S)
        → R s t
        → ((a : A) → r ≡ done a → R t (f a t).1)
        → R s (continue r f t).1
    continue-moves (done a) f s t h k = o.chain s t _ h (k a refl)
    continue-moves (fail e) f s t h k = h

    pub Moves-bind :
        (m : Exec S E A) (f : A → Exec S E B)
        → Moves R m
        → ((a : A) → Moves R (f a))
        → Moves R (m >>= f)
    unfolding ◌>>=◌
    Moves-bind m f km kf = record {
      from = λ s. let (r, t) = m s in continue-moves r f s t (km.from s) (λ a _. (kf a).from t);
    }

    -- The rest may use what the first step returned, and from where.
    pub Moves-bind_at :
        (m : Exec S E A) (f : A → Exec S E B) (s : S)
        → R s (m s).1
        → ((a : A) → (m s).0 ≡ done a → R (m s).1 (f a (m s).1).1)
        → R s ((m >>= f) s).1
    unfolding ◌>>=◌
    Moves-bind_at m f s km kf = let (r, t) = m s in continue-moves r f s t km kf

-- A step that only reads.
abbrev pub Reads {ℓ} : {S E A : Type ℓ} → Exec S E A → Type ℓ
Reads m = Moves ◌≡◌ m

module _ {ℓ} {S : Type ℓ} where
  pub ≡-IsPreorder : IsPreorder (◌≡◌ {A = S})
  ≡-IsPreorder = record { stay = λ s. refl; chain = λ s t u p q. p ∙ q }

  -- After a step that only reads, the rest starts where that step started.
  module _ {E A B : Type ℓ} {R : S → S → Type ℓ} (o : IsPreorder R) where
    pub Reads-bind :
        (m : Exec S E A) (f : A → Exec S E B) (s : S)
        → Reads m
        → ((a : A) → (m s).0 ≡ done a → R s (f a s).1)
        → R s ((m >>= f) s).1
    Reads-bind m f s k h =
        Moves-bind_at o m f s (subst (R s) (k.from s) (o.stay s))
          (λ a e. subst (λ t. R t (f a t).1) (k.from s) (h a e))

module _ {ℓ} {S E A : Type ℓ} {R : S → S → Type ℓ} (o : IsPreorder R) where
  pub Reads-Moves : (m : Exec S E A) → Reads m → Moves R m
  Reads-Moves m k = record { from = λ s. subst (R s) (k.from s) (o.stay s) }
