-- ===== src/Base/Results.antt =====
-- The outcome of a fallible call.
use mathlib.Core.Path.{◌≡◌, refl}
use mathlib.Core.Logic.{◌≢◌}

-- Rust's `Result`, with `stuck` for a loop of the model that ran out of fuel.
pub data Result (E A : Type 0) : Type 0 where
  ok : A → Result E A
  err : E → Result E A
  stuck : Result E A

module _ {E A B : Type 0} where
  -- Rust's `?` on a result of the same error type.
  abbrev pub and_then : Result E A → (A → Result E B) → Result E B
  and_then (ok a) f = f a
  and_then (err e) f = err e
  and_then stuck f = stuck

  pub and_then-eq-ok :
      (r : Result E A) (f : A → Result E B) {b : B}
      → and_then r f ≡ ok b
      → (a : A) × (r ≡ ok a) × (f a ≡ ok b)
  and_then-eq-ok (ok a) f h = (a, refl, h)
  and_then-eq-ok (err e) f h = cc
  and_then-eq-ok stuck f h = cc

  pub and_then-ne-stuck :
      (r : Result E A) (f : A → Result E B)
      → r ≢ stuck
      → ((a : A) → f a ≢ stuck)
      → and_then r f ≢ stuck
  and_then-ne-stuck (ok a) f h k = k a
  and_then-ne-stuck (err e) f h k = λ p. cc
  and_then-ne-stuck stuck f h k = absurd (h refl)

module _ {E F A : Type 0} where
  -- `Result::map_err`, and the conversion that `?` makes.
  abbrev pub map_err : (E → F) → Result E A → Result F A
  map_err f (ok a) = ok a
  map_err f (err e) = err (f e)
  map_err f stuck = stuck

  pub map_err-ne-stuck : (f : E → F) (r : Result E A) → r ≢ stuck → map_err f r ≢ stuck
  map_err-ne-stuck f (ok a) h = λ p. cc
  map_err-ne-stuck f (err e) h = λ p. cc
  map_err-ne-stuck f stuck h = absurd (h refl)

module _ {E A B : Type 0} where
  -- `Result::map`
  abbrev pub map_ok : (A → B) → Result E A → Result E B
  map_ok f (ok a) = ok (f a)
  map_ok f (err e) = err e
  map_ok f stuck = stuck

pub ok-injective : {E A : Type 0} {a b : A} → ◌≡◌ {A = Result E A} (ok a) (ok b) → a ≡ b
ok-injective h = cc
