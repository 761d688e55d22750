-- ===== src/Utf8.antt =====
-- What the program uses of Rust's `str`: the check of `String::from_utf8`.
pub mod Laws
use pipop_core.Base.{
  ℕ, zero, suc, ◌+◌, Option, none, some, List, [], ◌∷◌, Bytes, Text, Result, ok, err, length, drop,
  take, ◌++◌, ltb, leb, ◌==◌, ◌&&◌, if◌then◌else◌, Bool, true, false,
}
use pipop_core.Error.{FromUtf8Error}

-- What stands at the front of the input: a character of so many bytes, or an invalid sequence, whose
-- length is `none` where the input ends inside a character.
pub data Front : Type 0 where
  character : ℕ → Front
  invalid : Option ℕ → Front

abbrev within : ℕ → ℕ → ℕ → Bool
within lo hi b = leb lo b && leb b hi

-- A byte `10xxxxxx`.
abbrev is_continuation : ℕ → Bool
is_continuation = within 0x80 0xbf

-- The second byte that may follow a first one, which keeps out long forms and surrogates.
unfoldable pub second_byte : ℕ → ℕ → Bool
second_byte first b =
    if first == 0xe0
    then within 0xa0 0xbf b
    else if first == 0xed
    then within 0x80 0x9f b
    else if first == 0xf0
    then within 0x90 0xbf b
    else if first == 0xf4
    then within 0x80 0x8f b
    else is_continuation b

-- The bytes behind the first one: `seen` bytes are accepted, and `left` are to come.
unfoldable pub follow : ℕ → ℕ → Bytes → Front
follow seen zero bs = character seen
follow seen (suc left) [] = invalid none
follow seen (suc left) (b ∷ bs) =
    let rest = follow (seen + 1) left bs in if is_continuation b then rest else invalid (some seen)

unfoldable pub multibyte : ℕ → ℕ → Bytes → Front
unfolding second_byte follow
multibyte first left [] = invalid none
multibyte first left (b ∷ bs) = if second_byte first b then follow 2 left bs else invalid (some 1)

unfoldable pub front : ℕ → Bytes → Front
unfolding multibyte
front first bs =
    if ltb first 0x80
    then character 1
    else if within 0xc2 0xdf first
    then multibyte first 0 bs
    else if within 0xe0 0xef first
    then multibyte first 1 bs
    else if within 0xf0 0xf4 first
    then multibyte first 2 bs
    else invalid (some 1)

-- The check of the bytes from position `pos` on. A character is never empty, so the input's length is
-- enough fuel; `none` is success.
unfoldable pub check_from : ℕ → ℕ → Bytes → Option FromUtf8Error
unfolding front
check_from zero pos bs = none
check_from (suc fuel) pos [] = none
check_from (suc fuel) pos (b ∷ bs) = elim (front b bs) [
  | character n ↦ check_from fuel (pos + n) (drop n (b ∷ bs))
  | invalid n ↦ some (record { valid_up_to = pos; error_len = n })
]

abbrev pub checked : Option FromUtf8Error → Text → Result FromUtf8Error Text
checked none bs = ok bs
checked (some e) bs = err e

-- `String::from_utf8`
unfoldable pub from_utf8 : Bytes → Result FromUtf8Error Text
unfolding check_from
from_utf8 bs = checked (check_from (length bs) 0 bs) bs

-- `String::from_utf8_lossy`: every invalid sequence is replaced by U+FFFD.
unfoldable pub lossy_from : ℕ → Bytes → Text
unfolding front
lossy_from zero bs = []
lossy_from (suc fuel) [] = []
lossy_from (suc fuel) (b ∷ bs) = elim (front b bs) [
  | character n ↦ take n (b ∷ bs) ++ lossy_from fuel (drop n (b ∷ bs))
  | invalid (some n) ↦ 0xef ∷ 0xbf ∷ 0xbd ∷ lossy_from fuel (drop n (b ∷ bs))
  | invalid none ↦ 0xef ∷ 0xbf ∷ 0xbd ∷ []
]

unfoldable pub from_utf8_lossy : Bytes → Text
unfolding lossy_from
from_utf8_lossy bs = lossy_from (length bs) bs
