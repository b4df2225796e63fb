-- ===== src/Helper/Commands/Runs.antt =====
-- A command that a step of src/userspace_helper.rs runs, whatever ran before.
use mathlib.Core.List.{append_assoc}
use mathlib.Core.Path.{ap, subst, sym}
use tunmux.Exec.{Outcome, attempt, continue, done, fail, step, ◌>>=◌}
use tunmux.Exec.Moves.{Moves}
use tunmux.Exec.Succeeds.{Succeeds}
use tunmux.Helper.{Command, Host, MacosCleanupState}
use tunmux.Helper.Commands.{Failure, Run, execute}
use tunmux.Helper.Commands.Moves.{RunsFreely}
use tunmux.Prelude.{List, Member, Member-append, [], inl, inr, refl, ◌++◌, ◌∙◌, ◌∷◌, ◌≡◌}

-- commands have run in between, and what ran before stays on record
abbrev pub Grows : MacosCleanupState → MacosCleanupState → Type 0
Grows s t = (new : List Command) × (t.ran ≡ new ++ s.ran)

pub grows : RunsFreely Grows
grows = record {
  order = record {
    stay = λ s. ([], refl);
    chain = λ s t u (xs, p) (ys, q).
        (ys ++ xs, q ∙ ap (λ zs. ys ++ zs) p ∙ sym (append_assoc ys xs s.ran));
  };
  one = λ s c. (c ∷ [], refl);
}

-- the command is among those that have run in between
abbrev pub RanSince : Command → MacosCleanupState → MacosCleanupState → Type 0
RanSince c s t = (new : List Command) × (t.ran ≡ new ++ s.ran) × Member c new

module _ (c : Command) where
  pub RanSince-Grows : (s t u : MacosCleanupState) → RanSince c s t → Grows t u → RanSince c s u
  RanSince-Grows s t u (xs, p, m) (ys, q) = (
    ys ++ xs,
    q ∙ ap (λ zs. ys ++ zs) p ∙ sym (append_assoc ys xs s.ran),
    Member-append c ys xs (inr m),
  )

  pub Grows-RanSince : (s t u : MacosCleanupState) → Grows s t → RanSince c t u → RanSince c s u
  Grows-RanSince s t u (xs, p) (ys, q, m) = (
    ys ++ xs,
    q ∙ ap (λ zs. ys ++ zs) p ∙ sym (append_assoc ys xs s.ran),
    Member-append c ys xs (inl m),
  )

  pub RanSince-Member : (s t : MacosCleanupState) → RanSince c s t → Member c t.ran
  RanSince-Member s t (xs, p, m) = subst (Member c) (sym p) (Member-append c xs s.ran (inl m))

-- whatever happened before
abbrev pub Runs : {A : Type 0} → Command → Run A → Type 0
Runs c m = (s : MacosCleanupState) → RanSince c s (m s).1

module _ {A B : Type 0} (c : Command) (f : A → Run B) where
  continue-Runs :
      (r : Outcome Failure A) (s t : MacosCleanupState)
      → ((a : A) → Moves Grows (f a))
      → RanSince c s t
      → RanSince c s (continue r f t).1
  continue-Runs (done a) s t k h = RanSince-Grows c s t (f a t).1 h ((k a).from t)
  continue-Runs (fail x) s t k h = h

  -- what the first part runs
  pub bind-Runs : (m : Run A) → Runs c m → ((a : A) → Moves Grows (f a)) → Runs c (m >>= f)
  unfolding ◌>>=◌
  bind-Runs m h k s = continue-Runs (m s).0 s (m s).1 k (h s)

  -- what the rest runs, after a part that does not fail
  pub then-Runs :
      (m : Run A) → Succeeds m → Moves Grows m → ((a : A) → Runs c (f a)) → Runs c (m >>= f)
  unfolding ◌>>=◌
  then-Runs m h g k s = by_outcome (m s).0 (m s).1 (h.from s) (g.from s)
    where
      by_outcome :
          (r : Outcome Failure A) (t : MacosCleanupState)
          → ((a : A) × (r ≡ done a))
          → Grows s t
          → RanSince c s (continue r f t).1
      by_outcome (done a) t h grown = Grows-RanSince c s t (f a t).1 grown (k a t)
      by_outcome (fail x) t (a, h) grown = absurd (cc)

pub execute-Runs : (host : Host) (c : Command) → Runs c (execute host c)
unfolding execute step
execute-Runs host c s = (c ∷ [], refl, inl refl)

pub attempt-Runs : {A : Type 0} (c : Command) (m : Run A) → Runs c m → Runs c (attempt m)
unfolding attempt
attempt-Runs c m h s = h s

module _ {A B : Type 0} where
  -- after a first part that ended well
  pub bind-at :
      (m : Run A) (f : A → Run B) (s : MacosCleanupState) (a : A)
      → (m s).0 ≡ done a
      → (m >>= f) s ≡ f a (m s).1
  unfolding ◌>>=◌
  bind-at m f s a h = ap (λ r. continue r f (m s).1) h

  pub bind-state :
      (m : Run A) (f : A → Run B) (s : MacosCleanupState) (a : A)
      → (m s).0 ≡ done a
      → ((m >>= f) s).1 ≡ (f a (m s).1).1
  bind-state m f s a h = ap (λ r. r.1) (bind-at m f s a h)
