-- ===== src/Utf8/Laws.antt =====
-- `String::from_utf8`: it keeps the bytes, and takes all of ASCII.
use pipop_core.Base.{
  arith, ap, ◌∙◌, ◌++◌, take, drop, length-drop, append-take-drop, ◌≤◌, ℕ, zero, suc, ◌+◌, ◌<◌, ◌≡◌,
  refl, Option, none, some, [], ◌∷◌, Bytes, ok, length, All, lt→ltb,
}
use pipop_core.Error.{FromUtf8Error}
use pipop_core.Utf8.{
  Front, follow, multibyte, lossy_from, from_utf8_lossy, invalid, check_from, from_utf8, front,
  character, checked,
}

checked-keeps : (o : Option FromUtf8Error) (bs t : Bytes) → checked o bs ≡ ok t → t ≡ bs
checked-keeps none bs t e = cc
checked-keeps (some x) bs t e = cc

-- A string that was made is the bytes that were given.
pub from_utf8_keeps : (bs t : Bytes) → from_utf8 bs ≡ ok t → t ≡ bs
unfolding from_utf8
from_utf8_keeps bs t e = checked-keeps (check_from (length bs) 0 bs) bs t e

front_ascii : (b : ℕ) (bs : Bytes) → b < 128 → front b bs ≡ character 1
unfolding front
front_ascii b bs h = rw (lt→ltb b 128 h)

check_from_ascii :
    (bs : Bytes) (fuel pos : ℕ) → All (λ b. b < 128) bs → check_from fuel pos bs ≡ none
unfolding check_from
check_from_ascii [] zero pos h = refl
check_from_ascii [] (suc fuel) pos h = refl
check_from_ascii (b ∷ bs) zero pos h = refl
check_from_ascii (b ∷ bs) (suc fuel) pos h =
    rw (front_ascii b bs h.0, check_from) (check_from_ascii bs fuel (pos + 1) h.1)

pub from_utf8_ascii : (bs : Bytes) → All (λ b. b < 128) bs → from_utf8 bs ≡ ok bs
unfolding from_utf8
from_utf8_ascii bs h = rw (check_from_ascii bs (length bs) 0 h)

follow-pos : (left seen n : ℕ) (bs : Bytes) → 0 < seen → follow seen left bs ≡ character n → 0 < n
unfolding follow
follow-pos zero seen n bs h e = ground arith
follow-pos (suc left) seen n [] h e = cc
follow-pos (suc left) seen n (b ∷ bs) h e = ground (arith, follow-pos left (seen + 1) n bs)

multibyte-pos : (first left n : ℕ) (bs : Bytes) → multibyte first left bs ≡ character n → 0 < n
unfolding multibyte
multibyte-pos first left n [] e = cc
multibyte-pos first left n (b ∷ bs) e = ground (arith, follow-pos left 2 n bs)

front-pos : (b n : ℕ) (bs : Bytes) → front b bs ≡ character n → 0 < n
unfolding front
front-pos b n bs e =
    ground (arith, multibyte-pos b 0 n bs, multibyte-pos b 1 n bs, multibyte-pos b 2 n bs)

-- One round, by what stands in front.
lossy_from-round :
    (fuel pos b : ℕ) (bs : Bytes) (f : Front)
    → front b bs ≡ f
    → ((n : ℕ)
        → 0 < n
        → check_from fuel (pos + n) (drop n (b ∷ bs)) ≡ none
        → lossy_from fuel (drop n (b ∷ bs)) ≡ drop n (b ∷ bs))
    → check_from (suc fuel) pos (b ∷ bs) ≡ none
    → lossy_from (suc fuel) (b ∷ bs) ≡ b ∷ bs
unfolding lossy_from check_from
lossy_from-round fuel pos b bs (character n) e ih h =
    rw (e, lossy_from)
      (ap (λ (t : Bytes). take n (b ∷ bs) ++ t)
          (ih n (front-pos b n bs e) (rw (e, check_from) at h))
        ∙ append-take-drop n (b ∷ bs))
lossy_from-round fuel pos b bs (invalid o) e ih h = let k = rw (e, check_from) at h in cc

lossy_from-valid :
    (fuel pos : ℕ) (bs : Bytes)
    → length bs ≤ fuel
    → check_from fuel pos bs ≡ none
    → lossy_from fuel bs ≡ bs
lossy_from-valid zero pos [] l h = unfold lossy_from in refl
lossy_from-valid zero pos (b ∷ bs) l h = absurd (omega arith)
lossy_from-valid (suc fuel) pos [] l h = unfold lossy_from in refl
lossy_from-valid (suc fuel) pos (b ∷ bs) l h =
    lossy_from-round fuel pos b bs (front b bs) refl
      (λ n p k.
        lossy_from-valid fuel (pos + n) (drop n (b ∷ bs)) (omega (arith, length-drop n (b ∷ bs))) k)
      h

checked-ok : (o : Option FromUtf8Error) (bs : Bytes) → checked o bs ≡ ok bs → o ≡ none
checked-ok none bs h = refl
checked-ok (some e) bs h = cc

-- A valid string is not changed by the lossy conversion.
pub from_utf8_lossy-valid : (bs : Bytes) → from_utf8 bs ≡ ok bs → from_utf8_lossy bs ≡ bs
unfolding from_utf8 from_utf8_lossy
from_utf8_lossy-valid bs h =
    lossy_from-valid (length bs) 0 bs (omega arith) (checked-ok (check_from (length bs) 0 bs) bs h)
