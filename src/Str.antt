-- ===== src/Str.antt =====
-- What the program uses of Rust's `str` besides UTF-8: trimming, and parsing a `usize`.
pub mod Digits
use pipop_core.Base.{
  ℕ, zero, suc, ◌+◌, ◌-◌, ◌*◌, ◌^◌, Bool, ◌&&◌, ◌||◌, Option, none, some, List, [], ◌∷◌, Bytes,
  Text, length, drop, ltb, leb, ◌==◌, if◌then◌else◌,
}
use mathlib.Core.List.{reverse}

abbrev between : ℕ → ℕ → ℕ → Bool
between lo hi b = leb lo b && leb b hi

-- A character of White_Space in one byte, in two and in three.
abbrev white_1 : ℕ → Bool
white_1 a = between 9 13 a || a == 32

abbrev white_2 : ℕ → ℕ → Bool
white_2 a b = a == 0xc2 && (b == 0x85 || b == 0xa0)

abbrev white_3 : ℕ → ℕ → ℕ → Bool
white_3 a b c =
    (a == 0xe1 && (b == 0x9a && c == 0x80))
    || ((a == 0xe2 && (b == 0x80 && (between 0x80 0x8a c || (between 0xa8 0xa9 c || c == 0xaf))))
        || ((a == 0xe2 && (b == 0x81 && c == 0x9f)) || (a == 0xe3 && (b == 0x80 && c == 0x80))))

-- The length of the white space character in front of a text, 0 where there is none.
unfoldable pub white_front : Bytes → ℕ
white_front [] = 0
white_front (a ∷ []) = if white_1 a then 1 else 0
white_front (a ∷ b ∷ []) = if white_1 a then 1 else if white_2 a b then 2 else 0
white_front (a ∷ b ∷ c ∷ _) =
    if white_1 a then 1 else if white_2 a b then 2 else if white_3 a b c then 3 else 0

-- The same at the end of a text, which is given backwards.
unfoldable pub white_back : Bytes → ℕ
white_back [] = 0
white_back (a ∷ []) = if white_1 a then 1 else 0
white_back (b ∷ a ∷ []) = if white_1 b then 1 else if white_2 a b then 2 else 0
white_back (c ∷ b ∷ a ∷ _) =
    if white_1 c then 1 else if white_2 b c then 2 else if white_3 a b c then 3 else 0

-- Drops characters as long as there are some. A round takes a byte, so the length is enough fuel.
unfoldable pub strip : (Bytes → ℕ) → ℕ → Bytes → Bytes
strip width zero bs = bs
strip width (suc fuel) bs = elim (width bs) [
  | zero ↦ bs
  | suc n ↦ strip width fuel (drop (suc n) bs)
]

-- `str::trim`
unfoldable pub trim : Text → Text
unfolding strip white_front white_back
trim t = let s = strip white_front (length t) t in reverse (strip white_back (length s) (reverse s))

-- The loop of `usize::from_str`, with the number so far.
unfoldable pub digits_value : ℕ → Text → Option ℕ
digits_value acc [] = some acc
digits_value acc (c ∷ cs) =
    let value = acc * 10 + (c - b'0') in
    let rest = digits_value value cs in
    if between b'0' b'9' c && ltb value (2 ^ 64) then rest else none

unfoldable pub unsigned_digits : Text → Option ℕ
unfolding digits_value
unsigned_digits [] = none
unsigned_digits (c ∷ cs) = digits_value 0 (c ∷ cs)

-- `str::parse::<usize>`, which takes a plus sign. Its error is not told apart.
unfoldable pub parse_usize : Text → Option ℕ
unfolding unsigned_digits
parse_usize [] = none
parse_usize (c ∷ cs) = if c == b'+' then unsigned_digits cs else unsigned_digits (c ∷ cs)
