-- ===== src/Utils/Words.antt =====
-- src/utils.rs: the value of a big-endian buffer, and reading back what was written.
use pipop_core.Base.{ℕ, ◌+◌, ◌*◌, ◌%◌, ◌^◌, ◌<◌, ◌≡◌, [], ◌∷◌, bit_or, arith}
use pipop_core.Base.Bits.{bit_or-add}
use pipop_core.Utils.{u16_of, u32_of, u64_of}

abbrev pub IsByte : ℕ → Type 0
IsByte b = b < 2 ^ 8

pub u16_of_lem : (a b : ℕ) → IsByte a → IsByte b → u16_of (a ∷ b ∷ []) ≡ a * 2 ^ 8 + b
unfolding u16_of
u16_of_lem a b ha hb =
    omega (arith, bit_or-add 8 (a * 2 ^ 8 % 2 ^ 16) b (omega arith) (omega arith))

pub u32_of_lem :
    (a b c d : ℕ)
    → IsByte a
    → IsByte b
    → IsByte c
    → IsByte d
    → u32_of (a ∷ b ∷ c ∷ d ∷ []) ≡ a * 2 ^ 24 + b * 2 ^ 16 + c * 2 ^ 8 + d
unfolding u32_of
u32_of_lem a b c d ha hb hc hd =
    let x = a * 2 ^ 24 % 2 ^ 32 in
    let y = b * 2 ^ 16 % 2 ^ 32 in
    let z = c * 2 ^ 8 % 2 ^ 32 in
    let p : bit_or x y ≡ x + y = bit_or-add 24 x y (omega arith) (omega arith) in
    let q : bit_or (x + y) z ≡ x + y + z = bit_or-add 16 (x + y) z (omega arith) (omega arith) in
    rw (p, q, bit_or-add 8 (x + y + z) d (omega arith) (omega arith)) (omega arith)

pub u64_of_lem :
    (a b c d e f g h : ℕ)
    → IsByte a
    → IsByte b
    → IsByte c
    → IsByte d
    → IsByte e
    → IsByte f
    → IsByte g
    → IsByte h
    → u64_of (a ∷ b ∷ c ∷ d ∷ e ∷ f ∷ g ∷ h ∷ [])
      ≡ a * 2 ^ 56 + b * 2 ^ 48 + c * 2 ^ 40 + d * 2 ^ 32 + e * 2 ^ 24 + f * 2 ^ 16 + g * 2 ^ 8 + h
unfolding u64_of
u64_of_lem a b c d e f g h ha hb hc hd he hf hg hh =
    let s : ℕ = a * 2 ^ 56 % 2 ^ 64 in
    let t : ℕ = b * 2 ^ 48 % 2 ^ 64 in
    let u : ℕ = c * 2 ^ 40 % 2 ^ 64 in
    let v : ℕ = d * 2 ^ 32 % 2 ^ 64 in
    let w : ℕ = e * 2 ^ 24 % 2 ^ 64 in
    let x : ℕ = f * 2 ^ 16 % 2 ^ 64 in
    let y : ℕ = g * 2 ^ 8 % 2 ^ 64 in
    rw
      (
        bit_or-add 56 s t (omega arith) (omega arith),
        bit_or-add 48 (s + t) u (omega arith) (omega arith),
        bit_or-add 40 (s + t + u) v (omega arith) (omega arith),
        bit_or-add 32 (s + t + u + v) w (omega arith) (omega arith),
        bit_or-add 24 (s + t + u + v + w) x (omega arith) (omega arith),
        bit_or-add 16 (s + t + u + v + w + x) y (omega arith) (omega arith),
        bit_or-add 8 (s + t + u + v + w + x + y) h (omega arith) (omega arith),
      )
      (omega arith)
