-- ===== src/Str/Digits.antt =====
-- A number that was printed is parsed again.
use pipop_core.Base.{
  ℕ, zero, suc, ◌+◌, ◌-◌, ◌*◌, ◌/◌, ◌%◌, ◌^◌, ◌≤◌, ◌<◌, ◌≡◌, refl, ap, sym, ◌∙◌, some, [], ◌∷◌,
  ◌++◌, map, Bytes, Text, length, All, decimal, digits_in, digit_char, lt→ltb, ge→ltb, le→leb,
  ==_ne, arith,
}
use mathlib.Core.List.{
  reverse, reverse-append, reverse-reverse, append_assoc, append-nil, map-append,
}
use pipop_core.Str.{
  white_front, white_back, strip, trim, digits_value, unsigned_digits, parse_usize,
}
use native.Mathlib.Decide.{dec_lt}

abbrev IsDigit : ℕ → Type 0
IsDigit c = (48 ≤ c) × (c ≤ 57)

white_front-digit : (c : ℕ) (cs : Bytes) → IsDigit c → white_front (c ∷ cs) ≡ 0
unfolding white_front
white_front-digit c [] h = ground arith
white_front-digit c (d ∷ []) h = ground arith
white_front-digit c (d ∷ e ∷ cs) h = ground arith

white_back-digit : (c : ℕ) (cs : Bytes) → IsDigit c → white_back (c ∷ cs) ≡ 0
unfolding white_back
white_back-digit c [] h = ground arith
white_back-digit c (d ∷ []) h = ground arith
white_back-digit c (d ∷ e ∷ cs) h = ground arith

digit_char-IsDigit : (d : ℕ) → d < 10 → IsDigit (digit_char d)
unfolding digit_char
digit_char-IsDigit d h = ground arith

-- What `decimal` prints, with its fuel.
abbrev printed : ℕ → ℕ → Text
printed fuel n = map digit_char (digits_in 10 fuel n)

printed-small : (fuel n : ℕ) → n < 10 → printed (suc fuel) n ≡ digit_char n ∷ []
unfolding digits_in
printed-small fuel n h = rw (lt→ltb n 10 h)

printed-large :
    (fuel n : ℕ)
    → 10 ≤ n
    → printed (suc fuel) n ≡ printed fuel (n / 10) ++ (digit_char (n % 10) ∷ [])
unfolding digits_in
printed-large fuel n h = rw (ge→ltb n 10 h) (map-append digit_char _ _)

digit_char_lem : (d : ℕ) → d < 10 → digit_char d ≡ 48 + d
unfolding digit_char
digit_char_lem d h = rw (lt→ltb d 10 h)

digits_value-step :
    (acc d : ℕ) (rest : Text)
    → d < 10
    → acc * 10 + d < 2 ^ 64
    → digits_value acc (digit_char d ∷ rest) ≡ digits_value (acc * 10 + d) rest
unfolding digits_value
digits_value-step acc d rest h l =
    let v : 48 + d - 48 ≡ d = omega arith in
    rw (
      digit_char_lem d h,
      v,
      le→leb 48 (48 + d) (omega arith),
      le→leb (48 + d) 57 (omega arith),
      lt→ltb (acc * 10 + d) (2 ^ 64) l,
    )

digits_value-printed :
    (fuel n : ℕ) (rest : Text)
    → n < fuel
    → n < 2 ^ 64
    → digits_value 0 (printed fuel n ++ rest) ≡ digits_value n rest
digits_value-printed zero n rest h l = absurd (omega arith)
digits_value-printed (suc fuel) n rest h l = elim (dec_lt n 10) [
  | yes p ↦
      let v : 0 * 10 + n ≡ n = omega arith in
      rw (printed-small fuel n p)
        (digits_value-step 0 n rest p (omega arith) ∙ ap (λ (t : ℕ). digits_value t rest) v)
  | no p ↦
      let v : n / 10 * 10 + n % 10 ≡ n = omega arith in
      rw
        (
          printed-large fuel n (omega arith),
          append_assoc (printed fuel (n / 10)) (digit_char (n % 10) ∷ []) rest,
        )
        (digits_value-printed fuel (n / 10) (digit_char (n % 10) ∷ rest) (omega arith) (omega arith)
          ∙ digits_value-step (n / 10) (n % 10) rest (omega arith) (omega arith)
          ∙ ap (λ (t : ℕ). digits_value t rest) v)
]

-- A text that begins with a digit.
abbrev Begins : Text → Type 0
Begins [] = ⊥
Begins (c ∷ cs) = IsDigit c

Begins-append : (xs ys : Text) → Begins xs → Begins (xs ++ ys)
Begins-append [] ys h = absurd h
Begins-append (x ∷ xs) ys h = h

printed-Begins : (fuel n : ℕ) → n < fuel → Begins (printed fuel n)
printed-Begins zero n h = absurd (omega arith)
printed-Begins (suc fuel) n h = elim (dec_lt n 10) [
  | yes p ↦ rw (printed-small fuel n p) (digit_char-IsDigit n p)
  | no p ↦
      rw (printed-large fuel n (omega arith))
        (Begins-append (printed fuel (n / 10)) _ (printed-Begins fuel (n / 10) (omega arith)))
]

reverse-printed-Begins : (fuel n : ℕ) → n < fuel → Begins (reverse (printed fuel n))
reverse-printed-Begins zero n h = absurd (omega arith)
reverse-printed-Begins (suc fuel) n h = elim (dec_lt n 10) [
  | yes p ↦ rw (printed-small fuel n p) (digit_char-IsDigit n p)
  | no p ↦
      rw
        (
          printed-large fuel n (omega arith),
          reverse-append (printed fuel (n / 10)) (digit_char (n % 10) ∷ []),
        )
        (digit_char-IsDigit (n % 10) (omega arith))
]

strip_front-Begins : (fuel : ℕ) (t : Text) → Begins t → strip white_front fuel t ≡ t
unfolding strip
strip_front-Begins zero t h = refl
strip_front-Begins (suc fuel) [] h = absurd h
strip_front-Begins (suc fuel) (c ∷ cs) h = rw (strip, white_front-digit c cs h)

strip_back-Begins : (fuel : ℕ) (t : Text) → Begins t → strip white_back fuel t ≡ t
unfolding strip
strip_back-Begins zero t h = refl
strip_back-Begins (suc fuel) [] h = absurd h
strip_back-Begins (suc fuel) (c ∷ cs) h = rw (strip, white_back-digit c cs h)

trim-Begins : (t : Text) → Begins t → Begins (reverse t) → trim t ≡ t
unfolding trim
trim-Begins t h k = rw (
  strip_front-Begins (length t) t h,
  strip_back-Begins (length t) (reverse t) k,
  reverse-reverse t,
)

parse_usize-Begins : (t : Text) → Begins t → parse_usize t ≡ digits_value 0 t
unfolding parse_usize unsigned_digits
parse_usize-Begins [] h = absurd h
parse_usize-Begins (c ∷ cs) h = rw (==_ne c 43 (λ e. omega (arith, e)))

-- A number of 64 bits that `to_string` printed is what `trim` and `parse` give back.
pub parse_usize-decimal : (n : ℕ) → n < 2 ^ 64 → parse_usize (trim (decimal n)) ≡ some n
unfolding decimal
parse_usize-decimal n h =
    let begins = printed-Begins (suc n) n (omega arith) in
    rw
      (
        trim-Begins (printed (suc n) n) begins (reverse-printed-Begins (suc n) n (omega arith)),
        parse_usize-Begins (printed (suc n) n) begins,
      )
      (ap (digits_value 0) (sym (append-nil (printed (suc n) n)))
        ∙ digits_value-printed (suc n) n [] (omega arith) h
        ∙ unfold digits_value in refl)

-- ASCII text, and its concatenation.
abbrev pub IsAscii : Text → Type 0
IsAscii = All (λ c. c < 128)

IsAscii-append : (xs ys : Text) → IsAscii xs → IsAscii ys → IsAscii (xs ++ ys)
IsAscii-append [] ys h k = k
IsAscii-append (x ∷ xs) ys (h, r) k = (h, IsAscii-append xs ys r k)

printed-IsAscii : (fuel n : ℕ) → IsAscii (printed fuel n)
unfolding digits_in
printed-IsAscii zero n = tt
printed-IsAscii (suc fuel) n = elim (dec_lt n 10) [
  | yes p ↦ rw (printed-small fuel n p) (omega (arith, digit_char-IsDigit n p), tt)
  | no p ↦ rw (printed-large fuel n (omega arith)) (
      IsAscii-append (printed fuel (n / 10)) _ (printed-IsAscii fuel (n / 10))
        (omega (arith, digit_char-IsDigit (n % 10) (omega arith)), tt))
]

pub decimal-IsAscii : (n : ℕ) → IsAscii (decimal n)
unfolding decimal
decimal-IsAscii n = printed-IsAscii (suc n) n
