-- ===== src/Foreign/Strings.antt =====
-- src/utils.rs: strings that are handed to C callers, and those that are taken from them.
pub mod Laws
use pipop_core.Base.{
  ℕ, Bool, true, false, ◌||◌, Option, none, some, List, [], ◌∷◌, Bytes, Text, Result, ok, err,
  stuck, ◌==◌, if◌then◌else◌,
}
use pipop_core.Utf8.{from_utf8}
use pipop_core.Error.{FromUtf8Error}
use pipop_core.Foreign.Memory.{Foreign, Memory, pure, ◌>>=◌, defined, place, load, release}
use pipop_core.Foreign.Cells.{Cell, c_string, c_cameras, c_session}

-- A NUL byte in the string.
unfoldable pub has_nul : Text → Bool
has_nul [] = false
has_nul (b ∷ bs) = b == 0 || has_nul bs

-- `CString::new(rust_str)`, and `into_raw` or a null pointer.
unfoldable pub rust_str_to_c : Text → Foreign Cell (Option ℕ)
rust_str_to_c rust_str =
    if has_nul rust_str then pure none else (place (c_string rust_str) >>= λ p. pure (some p))

-- A pointer to something else than a string is undefined behaviour.
abbrev pub string_in : Cell → Foreign Cell Bytes
string_in (c_string bs) h = some (bs, h)
string_in (c_cameras cs) h = none
string_in (c_session s w) h = none

-- `CStr::from_ptr(...).to_bytes()`
unfoldable pub string_at : ℕ → Foreign Cell Bytes
string_at p = load p >>= string_in

-- `to_str().ok()`
abbrev pub valid_text : Result FromUtf8Error Text → Option Text
valid_text (ok t) = some t
valid_text (err e) = none
valid_text stuck = none

unfoldable pub c_str_to_rust : Option ℕ → Foreign Cell (Option Text)
c_str_to_rust none = pure none
c_str_to_rust (some p) = string_at p >>= λ bs. pure (valid_text (from_utf8 bs))

-- `drop(CString::from_raw(p))`
unfoldable pub drop_string : Option ℕ → Foreign Cell (Unit {0})
drop_string none = pure tt
drop_string (some p) = string_at p >>= λ bs. release p
