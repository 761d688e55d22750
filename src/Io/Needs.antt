-- ===== src/Io/Needs.antt =====
-- How many bytes a reader needs: below that number it fails at the end of the input.
use pipop_core.Base.{ℕ, ◌+◌, ◌≤◌, ◌<◌, ◌≡◌, Bytes, ok, err, length, length-drop, drop, arith}
use pipop_core.Io.{Reader, ◌>>=◌}
use native.Mathlib.Decide.{dec_lt}

module _ {F : Type 0} where
  -- On fewer than `k` bytes the reader fails with `e`, and on others it takes `k` bytes.
  pub record Takes {A : Type 0} (e : F) (k : ℕ) (m : Reader F A) : Type 0 where
    pub short : (bs : Bytes) → length bs < k → m bs ≡ err e
    pub enough : (bs : Bytes) → k ≤ length bs → (a : A) × (m bs ≡ ok (a, drop k bs))

  pub record Needs {A : Type 0} (e : F) (n : ℕ) (m : Reader F A) : Type 0 where
    pub short : (bs : Bytes) → length bs < n → m bs ≡ err e

  pub Needs-nothing : {A : Type 0} {e : F} (m : Reader F A) → Needs e 0 m
  Needs-nothing m = record { short = λ bs h. absurd (omega arith) }

  module _ {A B : Type 0} {e : F} where
    Needs-bind_short :
        (k n : ℕ) (m : Reader F A) (f : A → Reader F B)
        → Takes e k m
        → ((a : A) → Needs e n (f a))
        → (bs : Bytes) → length bs < k + n
        → (m >>= f) bs ≡ err e
    Needs-bind_short k n m f t s bs h = elim (dec_lt (length bs) k) [
      | yes p ↦ rw (t.short bs p)
      | no p ↦
          let (a, q) = t.enough bs (omega arith) in
          rw q ((s a).short (drop k bs) (omega (arith, length-drop k bs)))
    ]

    pub Needs-bind :
        (k n : ℕ) (m : Reader F A) (f : A → Reader F B)
        → Takes e k m
        → ((a : A) → Needs e n (f a))
        → Needs e (k + n) (m >>= f)
    Needs-bind k n m f t s = record { short = Needs-bind_short k n m f t s }

    -- A chain needs what its first reader needs.
    pub Needs-first :
        (n : ℕ) (m : Reader F A) (f : A → Reader F B) → Needs e n m → Needs e n (m >>= f)
    Needs-first n m f h = record { short = λ bs l. rw (h.short bs l) }
