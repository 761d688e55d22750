-- ===== src/Io.antt =====
-- What the program uses of Rust's `std::io`: errors, and reading from a cursor over bytes.
pub mod Needs
use pipop_core.Base.{
  ℕ, zero, suc, ◌+◌, ◌≤◌, ◌≡◌, refl, List, [], ◌∷◌, ◌++◌, Text, Bytes, Result, ok, err, stuck,
  and_then, map_err, length, take, drop, text, arith,
}

pub data ErrorKind : Type 0 where
  not_found permission_denied connection_refused connection_reset broken_pipe : ErrorKind
  would_block timed_out write_zero unexpected_eof invalid_data invalid_input other_kind : ErrorKind

-- An `io::Error`: its kind, and the text that its `Display` writes.
pub record IoError : Type 0 where
  pub kind : ErrorKind
  pub message : Text

-- The error of `read_exact` at the end of the input.
unfoldable pub eof_error : IoError
eof_error = record { kind = unexpected_eof; message = text "failed to fill whole buffer" }

-- A reader over a cursor is a function of the bytes that lie behind the cursor's position.
abbrev pub Reader : Type 0 → Type 0 → Type 0
Reader E A = Bytes → Result E (A × Bytes)

-- `Cursor::read_exact` into a buffer of `n` bytes.
unfoldable pub read_exact : ℕ → Reader IoError Bytes
unfolding eof_error
read_exact zero bs = ok ([], bs)
read_exact (suc n) [] = err eof_error
read_exact (suc n) (b ∷ bs) = and_then (read_exact n bs) λ r. ok (b ∷ r.0, r.1)

module _ {E : Type 0} where
  abbrev pub pure : {A : Type 0} → A → Reader E A
  pure a bs = ok (a, bs)

  abbrev pub fail : {A : Type 0} → E → Reader E A
  fail e bs = err e

  infixl 5 ◌>>=◌ ◌>>◌
  abbrev pub ◌>>=◌ : {A B : Type 0} → Reader E A → (A → Reader E B) → Reader E B
  ◌>>=◌ m f bs = and_then (m bs) λ r. f r.0 r.1

  abbrev pub ◌>>◌ : {A B : Type 0} → Reader E A → Reader E B → Reader E B
  ◌>>◌ m k = m >>= λ _. k

  -- A reader that moves the position forward.
  abbrev pub skip : ℕ → Reader E (Unit {0})
  skip n bs = ok (tt, drop n bs)

  -- A result that was computed without the cursor.
  abbrev pub lift : {A : Type 0} → Result E A → Reader E A
  lift r bs = and_then r λ a. ok (a, bs)

  -- The value of a reader on a cursor that is dropped afterwards.
  abbrev pub run : {A : Type 0} → Reader E A → Bytes → Result E A
  run m bs = and_then (m bs) λ r. ok r.0

-- The same reader with its errors converted.
abbrev pub convert : {E F A : Type 0} → (E → F) → Reader E A → Reader F A
convert f m bs = map_err f (m bs)
