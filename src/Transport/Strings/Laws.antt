-- ===== src/Transport/Strings/Laws.antt =====
-- `extract_string`: what it returns, and when it fails.
use pipop_core.Base.{
  ℕ, zero, suc, map_err, ◌+◌, ◌≤◌, ◌<◌, ◌≡◌, ◌≢◌, refl, ap, [], ◌∷◌, ◌++◌, Bytes, Text, ok, err,
  length, length-append, take, drop, All, take-length_append, drop-length_append, ge→ltb, lt→ltb,
  ==_ne, arith, inl, inr, Bool-cases, ltb,
}
use mathlib.Core.List.{append-nil}
use pipop_core.Error.{protocol_error, string_encoding}
use pipop_core.Utf8.Laws.{from_utf8_keeps}
use pipop_core.Utf8.{from_utf8}
use pipop_core.Transport.Strings.{before_zero, bounds_message, extract_string}

before_zero-append :
    (bs rest : Bytes) → All (λ b. b ≢ 0) bs → before_zero (bs ++ rest) ≡ bs ++ before_zero rest
unfolding before_zero
before_zero-append [] rest h = refl
before_zero-append (b ∷ bs) rest h =
    rw (==_ne b 0 h.0) (ap (λ (t : Bytes). b ∷ t) (before_zero-append bs rest h.1))

-- A valid string with no zero byte, which lies in the data at the offset with padding behind it,
-- is found. The padding is empty or begins with a zero byte, and the length counts it.
pub extract_string_found :
    (front s padding back : Bytes)
    → All (λ b. b ≢ 0) s
    → from_utf8 s ≡ ok s
    → before_zero padding ≡ []
    → extract_string (front ++ ((s ++ padding) ++ back)) (length front) (length (s ++ padding))
      ≡ ok s
unfolding extract_string
extract_string_found front s padding back h u z =
    let inner = s ++ padding in
    rw (
      ge→ltb (length (front ++ (inner ++ back))) (length front + length inner)
          (omega (arith, length-append front (inner ++ back), length-append inner back)),
      drop-length_append front (inner ++ back),
      take-length_append inner back,
      before_zero-append s padding h,
      z,
      append-nil s,
      u,
    )

-- `extract_string` fails with its bounds error where the range leaves the data.
pub extract_string_bounds :
    (bs : Bytes) (offset len : ℕ)
    → length bs < offset + len
    → extract_string bs offset len ≡ err (protocol_error (bounds_message offset len (length bs)))
unfolding extract_string
extract_string_bounds bs offset len h = rw (lt→ltb _ _ h)

decoded : (bs t : Bytes) → map_err string_encoding (from_utf8 bs) ≡ ok t → t ≡ bs
decoded bs t e = ground (arith, from_utf8_keeps bs t)

before_zero-no_zero : (bs : Bytes) → All (λ b. b ≢ 0) (before_zero bs)
unfolding before_zero
before_zero-no_zero [] = tt
before_zero-no_zero (b ∷ bs) = ground (arith, before_zero-no_zero bs)

length-before_zero-le : (bs : Bytes) → length (before_zero bs) ≤ length bs
unfolding before_zero
length-before_zero-le [] = omega arith
length-before_zero-le (b ∷ bs) = ground (arith, length-before_zero-le bs)

length-take-le : (n : ℕ) (bs : Bytes) → length (take n bs) ≤ n
length-take-le zero bs = omega arith
length-take-le (suc n) [] = omega arith
length-take-le (suc n) (b ∷ bs) = omega (arith, length-take-le n bs)

extracted :
    (bs : Bytes) (offset len : ℕ) (t : Text)
    → extract_string bs offset len ≡ ok t
    → t ≡ before_zero (take len (drop offset bs))
unfolding extract_string
extracted bs offset len t e = elim (Bool-cases (ltb (length bs) (offset + len))) [
  | inl outside ↦ absurd (cc (rw outside at e))
  | inr inside ↦ decoded (before_zero (take len (drop offset bs))) t (rw inside at e)
]

within_data :
    (bs : Bytes) (offset len : ℕ) (t : Text)
    → extract_string bs offset len ≡ ok t
    → offset + len ≤ length bs
unfolding extract_string
within_data bs offset len t e = ground arith

-- A string that `extract_string` returns lies within the data, is the front of the range that was
-- asked for, has at most the length that was given and holds no zero byte.
pub extract_string_sound :
    (bs : Bytes) (offset len : ℕ) (t : Text)
    → extract_string bs offset len ≡ ok t
    → (offset + len ≤ length bs)
      × (t ≡ before_zero (take len (drop offset bs)))
      × (length t ≤ len)
      × All (λ b. b ≢ 0) t
extract_string_sound bs offset len t e =
    let range = take len (drop offset bs) in
    let p = extracted bs offset len t e in
    (
      within_data bs offset len t e,
      p,
      rw p (omega (arith, length-before_zero-le range, length-take-le len (drop offset bs))),
      rw p (before_zero-no_zero range),
    )
