-- ===== src/Transport/Strings.antt =====
-- `extract_string`, which src/transport.rs and src/commands.rs both define with the same body.
pub mod Laws
use pipop_core.Base.{
  ℕ, ◌+◌, List, [], ◌∷◌, ◌++◌, Bytes, Text, Result, ok, err, map_err, length, take, drop, ltb, ◌==◌,
  if◌then◌else◌, text, decimal,
}
use pipop_core.Error.{PtpIpError, protocol_error, string_encoding}
use pipop_core.Utf8.{from_utf8}

-- `split(|&b| b == 0).next()`: the bytes in front of the first zero.
unfoldable pub before_zero : Bytes → Bytes
before_zero [] = []
before_zero (b ∷ bs) = if b == 0 then [] else b ∷ before_zero bs

unfoldable pub bounds_message : ℕ → ℕ → ℕ → Text
bounds_message offset len available =
    text "String extraction out of bounds: offset="
    ++ (decimal offset
        ++ (text ", length=" ++ (decimal len ++ (text ", data length=" ++ decimal available))))

-- `usize` has 64 bits, so the sum of an offset and a length that were read as `u32` does not wrap.
unfoldable pub extract_string : Bytes → ℕ → ℕ → Result PtpIpError Text
extract_string bs offset len =
    if ltb (length bs) (offset + len)
    then err (protocol_error (bounds_message offset len (length bs)))
    else map_err string_encoding (from_utf8 (before_zero (take len (drop offset bs))))
