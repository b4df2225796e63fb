-- ===== src/Exec.antt =====
-- A step of the daemon: it reads and changes a state and ends with a value, or early with an error
-- (`?`, or a response that a handler returns on the spot). What was changed before an early end
-- stays changed.
pub mod Moves
pub mod Gives
pub mod Succeeds
pub mod Leaves
use tunmux.Prelude.{refl, ◌≡◌}

pub data Outcome {ℓ} (E A : Type ℓ) : Type ℓ where
  done : A → Outcome E A
  fail : E → Outcome E A

abbrev pub Exec {ℓ} : Type ℓ → Type ℓ → Type ℓ → Type ℓ
Exec S E A = S → Outcome E A × S

module _ {ℓ} {S E A : Type ℓ} where
  unfoldable pub pure : A → Exec S E A
  pure a s = (done a, s)

  unfoldable pub raise : E → Exec S E A
  raise e s = (fail e, s)

  unfoldable pub gets : (S → A) → Exec S E A
  gets f s = (done (f s), s)

  -- a new state and a value, from an operation that is not made of others
  unfoldable pub step : (S → Outcome E A × S) → Exec S E A
  step f s = f s

module _ {ℓ} {S E A B : Type ℓ} where
  abbrev pub continue : Outcome E A → (A → Exec S E B) → Exec S E B
  continue (done a) f s = f a s
  continue (fail e) f s = (fail e, s)

  infixl 5 ◌>>=◌ ◌>>◌
  unfoldable pub ◌>>=◌ : Exec S E A → (A → Exec S E B) → Exec S E B
  unfolding pure raise gets step
  ◌>>=◌ m f s = let (r, t) = m s in continue r f t

  abbrev pub ◌>>◌ : Exec S E A → Exec S E B → Exec S E B
  m >> k = m >>= λ _. k

abbrev pub map_outcome {ℓ} : {E F A : Type ℓ} → (E → F) → Outcome E A → Outcome F A
map_outcome f (done a) = done a
map_outcome f (fail e) = fail (f e)

module _ {ℓ} {S E F A : Type ℓ} where
  -- `match m { Ok(v) => v, Err(e) => return f(e) }`
  unfoldable pub or_return : (E → F) → Exec S E A → Exec S F A
  or_return f m s = let (r, t) = m s in (map_outcome f r, t)

module _ {ℓ} {S E A : Type ℓ} where
  -- the error as a value: `match m { Ok(..) => .., Err(e) => .. }`
  unfoldable pub attempt : Exec S E A → Exec S E (Outcome E A)
  attempt m s = let (r, t) = m s in (done r, t)

module _ {ℓ} {S E A B : Type ℓ} where
  continue-done :
      (r : Outcome E A) (f : A → Exec S E B) (t : S) (b : B)
      → (continue r f t).0 ≡ done b
      → (a : A) × (r ≡ done a) × ((f a t).0 ≡ done b)
  continue-done (done a) f t b h = (a, refl, h)
  continue-done (fail e) f t b h = absurd (cc)

  -- A chain that ends well: so did its first step.
  pub bind-done :
      (m : Exec S E A) (f : A → Exec S E B) (s : S) (b : B)
      → ((m >>= f) s).0 ≡ done b
      → (a : A) × ((m s).0 ≡ done a) × ((f a (m s).1).0 ≡ done b)
  unfolding ◌>>=◌
  bind-done m f s b h = let (r, t) = m s in continue-done r f t b h

module _ {ℓ} {S E F A : Type ℓ} where
  pub or_return-done :
      (f : E → F) (m : Exec S E A) (s : S) (a : A) → (or_return f m s).0 ≡ done a → (m s).0 ≡ done a
  unfolding or_return
  or_return-done f m s a h = let (r, t) = m s in map_outcome-done f r a h
    where
      map_outcome-done :
          (f : E → F) (r : Outcome E A) (a : A) → map_outcome f r ≡ done a → r ≡ done a
      map_outcome-done f (done b) a h = cc
      map_outcome-done f (fail e) a h = absurd (cc)

module _ {ℓ} {S E A B : Type ℓ} where
  continue-pure_state : (r : Outcome E A) (b : B) (t : S) → (continue r (λ _. pure b) t).1 ≡ t
  unfolding pure
  continue-pure_state (done a) b t = refl
  continue-pure_state (fail e) b t = refl

  pub then_pure-state : (m : Exec S E A) (b : B) (s : S) → ((m >>= λ _. pure b) s).1 ≡ (m s).1
  unfolding ◌>>=◌
  then_pure-state m b s = let (r, t) = m s in continue-pure_state r b t
