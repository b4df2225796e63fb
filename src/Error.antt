-- ===== src/Error.antt =====
-- src/error.rs: `AppError` and `Result`. An error keeps its variant; its text is not modelled. The
-- kind of an I/O error is kept as far as the program tests it.
pub mod Yields
use tunmux.Prelude.{List, Option, [], none, refl, some, ◌∷◌, ◌≡◌}

pub data ErrorKind : Type 0 where
  would_block not_found other_kind : ErrorKind

pub data AppError : Type 0 where
  json auth auth_required wireguard busy missing other : AppError
  io : ErrorKind → AppError

pub data Result {ℓ} (A : Type ℓ) : Type ℓ where
  ok : A → Result A
  err : AppError → Result A

-- `?`: an error ends the function
module _ {ℓ κ} {A : Type ℓ} {B : Type κ} where
  infixl 5 ◌>>=◌
  abbrev pub ◌>>=◌ : Result A → (A → Result B) → Result B
  err x >>= next = err x
  ok a >>= next = next a

infixl 5 ◌>>◌
abbrev pub ◌>>◌ {κ} : {B : Type κ} → Result (Unit {0}) → Result B → Result B
first >> next = first >>= λ _. next

-- `Option::ok_or`
abbrev pub ok_or {ℓ} : {A : Type ℓ} → AppError → Option A → Result A
ok_or e none = err e
ok_or e (some a) = ok a

abbrev pub map_ok {ℓ κ} : {A : Type ℓ} {B : Type κ} → (A → B) → Result A → Result B
map_ok f (ok a) = ok (f a)
map_ok f (err e) = err e

-- `collect::<Result<Vec<_>>>()` over a fallible map: the first error ends it
module _ {ℓ κ} {A : Type ℓ} {B : Type κ} where
  abbrev pub try_map : (A → Result B) → List A → Result (List B)
  try_map f [] = ok []
  try_map f (x ∷ xs) = do y ← f x; ys ← try_map f xs; ok (y ∷ ys)

module _ {ℓ κ} {A : Type ℓ} {B : Type κ} where
  -- A chain that succeeds: so did its first part, and the rest on its value.
  pub >>=-ok :
      (first : Result A) (next : A → Result B) {b : B}
      → (first >>= next) ≡ ok b
      → (a : A) × (first ≡ ok a) × (next a ≡ ok b)
  >>=-ok (err x) next h = cc
  >>=-ok (ok a) next h = (a, refl, h)
