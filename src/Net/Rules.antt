-- ===== src/Net/Rules.antt =====
-- How calls over a connection use up what arrives, with a rule for each way to build a call.
use pipop_core.Base.{
  ◌≤◌, ◌<◌, ◌≡◌, ◌≢◌, ◌⊎◌, inl, inr, refl, true, false, Bool, Result, ok, err, stuck, map_err,
  length, arith, if◌then◌else◌,
}
use pipop_core.Io.{IoError}
use pipop_core.Error.{from_io}
use pipop_core.Net.{Wire, Net, pure, fail, lift, continue, ◌>>=◌, question, attempt}

-- A call ended, and has not made the input longer.
abbrev pub Kept : {E A : Type 0} → Wire → Result E A × Wire → Type 0
Kept w (ok a, w') = length w'.incoming ≤ length w.incoming
Kept w (err e, w') = length w'.incoming ≤ length w.incoming
Kept w (stuck, w') = ⊥

-- The same, and if it succeeded it has used up input.
abbrev pub Used : {E A : Type 0} → Wire → Result E A × Wire → Type 0
Used w (ok a, w') = length w'.incoming < length w.incoming
Used w (err e, w') = length w'.incoming ≤ length w.incoming
Used w (stuck, w') = ⊥

-- At every state, `m` ends and does not make the input longer.
pub record Ends {E A : Type 0} (m : Net E A) : Type 0 where
  pub at : (w : Wire) → Kept w (m w)

-- At every state, `m` ends, and uses up input if it succeeds.
pub record Advances {E A : Type 0} (m : Net E A) : Type 0 where
  pub at : (w : Wire) → Used w (m w)

-- What a later call keeps is kept from an earlier state on.
pub Kept-after :
    {E A : Type 0} (w w' : Wire) (q : Result E A × Wire)
    → length w'.incoming ≤ length w.incoming
    → Kept w' q
    → Kept w q
Kept-after w w' (ok a, _) l h = omega arith
Kept-after w w' (err e, _) l h = omega arith
Kept-after w w' (stuck, _) l h = h

pub Used-after :
    {E A : Type 0} (w w' : Wire) (q : Result E A × Wire)
    → length w'.incoming < length w.incoming
    → Kept w' q
    → Used w q
Used-after w w' (ok a, _) l h = omega arith
Used-after w w' (err e, _) l h = omega arith
Used-after w w' (stuck, _) l h = h

pub Kept-of_Used : {E A : Type 0} (w : Wire) (q : Result E A × Wire) → Used w q → Kept w q
Kept-of_Used w (ok a, _) h = omega arith
Kept-of_Used w (err e, _) h = h
Kept-of_Used w (stuck, _) h = h

module _ {E A B : Type 0} where
  continue-Kept :
      (w : Wire) (p : Result E A × Wire) (f : A → Net E B)
      → Kept w p
      → ((a : A) → Ends (f a))
      → Kept w (continue p.0 f p.1)
  continue-Kept w (ok a, w') f h k = Kept-after w w' (f a w') h ((k a).at w')
  continue-Kept w (err e, w') f h k = h
  continue-Kept w (stuck, w') f h k = h

  continue-Used :
      (w : Wire) (p : Result E A × Wire) (f : A → Net E B)
      → Used w p
      → ((a : A) → Ends (f a))
      → Used w (continue p.0 f p.1)
  continue-Used w (ok a, w') f h k = Used-after w w' (f a w') h ((k a).at w')
  continue-Used w (err e, w') f h k = h
  continue-Used w (stuck, w') f h k = h

  -- The rule for a loop on fuel: the rest is only asked about states with less input.
  pub continue-Kept_below :
      (w : Wire) (p : Result E A × Wire) (f : A → Net E B)
      → Used w p
      → ((a : A) (w' : Wire) → length w'.incoming < length w.incoming → Kept w' (f a w'))
      → Kept w (continue p.0 f p.1)
  continue-Kept_below w (ok a, w') f h k = Kept-after w w' (f a w') (omega arith) (k a w' h)
  continue-Kept_below w (err e, w') f h k = h
  continue-Kept_below w (stuck, w') f h k = h

  pub continue-Used_below :
      (w : Wire) (p : Result E A × Wire) (f : A → Net E B)
      → Used w p
      → ((a : A) (w' : Wire) → length w'.incoming < length w.incoming → Kept w' (f a w'))
      → Used w (continue p.0 f p.1)
  continue-Used_below w (ok a, w') f h k = Used-after w w' (f a w') h (k a w' h)
  continue-Used_below w (err e, w') f h k = h
  continue-Used_below w (stuck, w') f h k = h

  -- What a successful chain went through.
  pub continue-eq-ok :
      (p : Result E A × Wire) (f : A → Net E B) {b : B}
      → (continue p.0 f p.1).0 ≡ ok b
      → (a : A) × (p.0 ≡ ok a) × ((f a p.1).0 ≡ ok b)
  continue-eq-ok (ok a, w') f h = (a, refl, h)
  continue-eq-ok (err e, w') f h = cc
  continue-eq-ok (stuck, w') f h = cc

  pub Ends-bind : (m : Net E A) (f : A → Net E B) → Ends m → ((a : A) → Ends (f a)) → Ends (m >>= f)
  Ends-bind m f h k = record { at = λ w. continue-Kept w (m w) f (h.at w) k }

  pub Advances-bind :
      (m : Net E A) (f : A → Net E B) → Advances m → ((a : A) → Ends (f a)) → Advances (m >>= f)
  Advances-bind m f h k = record { at = λ w. continue-Used w (m w) f (h.at w) k }

module _ {E A : Type 0} where
  pub Ends-pure : (a : A) → Ends (pure {E = E} a)
  Ends-pure a = record { at = λ w. omega arith }

  pub Ends-fail : (e : E) → Ends (fail {A = A} e)
  Ends-fail e = record { at = λ w. omega arith }

  lift-Kept : (r : Result E A) (w : Wire) → r ≢ stuck → Kept w (r, w)
  lift-Kept (ok a) w h = omega arith
  lift-Kept (err e) w h = omega arith
  lift-Kept stuck w h = h refl

  pub Ends-lift : (r : Result E A) → r ≢ stuck → Ends (lift r)
  Ends-lift r h = record { at = λ w. lift-Kept r w h }

  pub Ends-if : (b : Bool) (m n : Net E A) → Ends m → Ends n → Ends (if b then m else n)
  Ends-if true m n h k = h
  Ends-if false m n h k = k

  pub Ends-of_Advances : (m : Net E A) → Advances m → Ends m
  Ends-of_Advances m h = record { at = λ w. Kept-of_Used w (m w) (h.at w) }

  attempt-Kept :
      (w : Wire) (p : Result E A × Wire) → Kept w p → length p.1.incoming ≤ length w.incoming
  attempt-Kept w (ok a, _) h = h
  attempt-Kept w (err e, _) h = h
  attempt-Kept w (stuck, _) h = absurd h

  pub Ends-attempt : {F : Type 0} (m : Net E A) → Ends m → Ends (attempt {F = F} m)
  Ends-attempt m h = record { at = λ w. attempt-Kept w (m w) (h.at w) }

module _ {A : Type 0} where
  question-Kept :
      (w : Wire) (p : Result IoError A × Wire) → Kept w p → Kept w (map_err from_io p.0, p.1)
  question-Kept w (ok a, _) h = h
  question-Kept w (err e, _) h = h
  question-Kept w (stuck, _) h = h

  question-Used :
      (w : Wire) (p : Result IoError A × Wire) → Used w p → Used w (map_err from_io p.0, p.1)
  question-Used w (ok a, _) h = h
  question-Used w (err e, _) h = h
  question-Used w (stuck, _) h = h

  pub Ends-question : (m : Net IoError A) → Ends m → Ends (question m)
  Ends-question m h = record { at = λ w. question-Kept w (m w) (h.at w) }

  pub Advances-question : (m : Net IoError A) → Advances m → Advances (question m)
  Advances-question m h = record { at = λ w. question-Used w (m w) (h.at w) }

-- The branch that a loop on fuel takes: it hands on what it has, or goes on.
pub Kept-if :
    {E A : Type 0} (b : Bool) (m n : Net E A) (w : Wire)
    → Kept w (m w)
    → Kept w (n w)
    → Kept w ((if b then m else n) w)
Kept-if true m n w h k = h
Kept-if false m n w h k = k

pub Used-if :
    {E A : Type 0} (b : Bool) (m n : Net E A) (w : Wire)
    → Used w (m w)
    → Used w (n w)
    → Used w ((if b then m else n) w)
Used-if true m n w h k = h
Used-if false m n w h k = k

-- The branch that a successful call took.
pub if_ok :
    {E A : Type 0} (b : Bool) (m n : Net E A) (w : Wire) {a : A}
    → ((if b then m else n) w).0 ≡ ok a
    → ((b ≡ true) × ((m w).0 ≡ ok a)) ⊎ ((b ≡ false) × ((n w).0 ≡ ok a))
if_ok true m n w h = inl (refl, h)
if_ok false m n w h = inr (refl, h)

pub ruleset ending = (Ends-pure, Ends-fail, Ends-if, Ends-bind, Ends-question, Ends-attempt)
