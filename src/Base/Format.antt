-- ===== src/Base/Format.antt =====
-- Rust's `String` as its bytes in UTF-8, its literals, and the numbers that `format!` prints.
use Prim.Native.Nat.{ℕ, zero, suc, ◌+◌, ◌-◌, ◌/◌, ◌%◌}
use Prim.Native.Char.{code}
use Prim.Native.String.{String}
use mathlib.Core.Path.{◌≡◌, refl}
use mathlib.Core.List.{List, [], ◌∷◌, ◌++◌, map}
use pipop_core.Base.Tests.{ltb, if◌then◌else◌}
use pipop_core.Base.Lists.{length}

abbrev pub Bytes : Type 0
Bytes = List ℕ

-- A `String`.
abbrev pub Text : Type 0
Text = List ℕ

-- The bytes of one character.
encode_char : ℕ → Bytes
encode_char c =
    if ltb c 0x80
    then c ∷ []
    else if ltb c 0x800
    then (0xc0 + c / 64) ∷ (0x80 + c % 64) ∷ []
    else if ltb c 0x1_0000
    then (0xe0 + c / 4096) ∷ (0x80 + c / 64 % 64) ∷ (0x80 + c % 64) ∷ []
    else (0xf0 + c / 262144) ∷ (0x80 + c / 4096 % 64) ∷ (0x80 + c / 64 % 64) ∷ (0x80 + c % 64) ∷ []

-- A string literal.
unfoldable pub text : String → Text
unfolding encode_char
text String.[] = []
text (String.◌∷◌ c s) = encode_char (code c) ++ text s

-- The digits of `n` in a base, the highest first. The fuel bounds their number.
unfoldable pub digits_in : ℕ → ℕ → ℕ → List ℕ
digits_in base zero n = []
digits_in base (suc fuel) n =
    let rest = digits_in base fuel (n / base) in
    if ltb n base then n ∷ [] else rest ++ (n % base ∷ [])

-- `0` to `9`, then `A` to `F`.
unfoldable pub digit_char : ℕ → ℕ
digit_char d = if ltb d 10 then b'0' + d else b'A' + (d - 10)

-- `{}` on an unsigned number. A number has no more digits than its value plus one.
unfoldable pub decimal : ℕ → Text
unfolding digits_in digit_char
decimal n = map digit_char (digits_in 10 (suc n) n)

zeros : ℕ → Text
zeros zero = []
zeros (suc n) = b'0' ∷ zeros n

-- `{:0wX}`: upper-case hexadecimal, filled with zeros to `w` digits.
unfoldable pub hex : ℕ → ℕ → Text
unfolding digits_in digit_char zeros
hex w n = let ds = map digit_char (digits_in 16 (suc n) n) in zeros (w - length ds) ++ ds

decimal_runs : decimal 15740 ≡ text "15740"
unfolding decimal text
decimal_runs = refl

hex_runs : hex 4 0x2ab ≡ text "02AB"
unfolding hex text
hex_runs = refl
