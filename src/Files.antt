-- ===== src/Files.antt =====
-- What the program uses of `std::path` and `std::fs`: paths, and files that calls read and change.
pub mod Store
pub mod Rules
use pipop_core.Base.{
  ℕ, zero, suc, Bool, true, false, ◌&&◌, Option, none, some, List, [], ◌∷◌, ◌++◌, Bytes, Text,
  Result, ok, err, stuck, length, take, text, ◌==◌, if◌then◌else◌,
}
use pipop_core.Io.{IoError, not_found, invalid_data}
use pipop_core.Error.{FromUtf8Error}
use pipop_core.Utf8.{from_utf8}

-- A `PathBuf`: what `set_file_name` keeps, and the file name, which a path that ends in `..` lacks.
pub record PathBuf : Type 0 where
  pub parent : Text
  pub file_name : Option Text

-- `PathBuf::set_file_name`
abbrev pub set_file_name : Text → PathBuf → PathBuf
set_file_name name path = record { parent = path.parent; file_name = some name }

unfoldable pub same_text : Text → Text → Bool
same_text [] [] = true
same_text [] (d ∷ ds) = false
same_text (c ∷ cs) [] = false
same_text (c ∷ cs) (d ∷ ds) = c == d && same_text cs ds

unfoldable pub same_name : Option Text → Option Text → Bool
same_name none none = true
same_name none (some d) = false
same_name (some c) none = false
same_name (some c) (some d) = same_text c d

unfoldable pub same_path : PathBuf → PathBuf → Bool
same_path p q = same_text p.parent q.parent && same_name p.file_name q.file_name

-- How a call on a file goes: well, or with an error, a write after some bytes.
pub data Outcome : Type 0 where
  fine : Outcome
  failing : ℕ → IoError → Outcome

-- The files by their paths, and how the coming calls go; those behind the list's end go well.
pub record Disk : Type 0 where
  pub files : PathBuf → Option Bytes
  pub outcomes : List Outcome

abbrev pub Fs : Type 0 → Type 0
Fs A = Disk → Result IoError A × Disk

-- The files with other contents at one path; `none` is no file.
abbrev pub put : PathBuf → Option Bytes → Disk → Disk
put path content d = record d { files = λ q. if same_path path q then content else d.files q }

abbrev pub first_outcome : List Outcome → Outcome
first_outcome [] = fine
first_outcome (o ∷ os) = o

abbrev pub later_outcomes : List Outcome → List Outcome
later_outcomes [] = []
later_outcomes (o ∷ os) = os

abbrev pub spent : Disk → Disk
spent d = record d { outcomes = later_outcomes d.outcomes }

-- A call that has no effect where it fails.
abbrev pub unless_failing : {A : Type 0} → Outcome → Fs A → Fs A
unless_failing fine m d = m d
unless_failing (failing k e) m d = (err e, d)

unfoldable pub guarded : {A : Type 0} → Fs A → Fs A
guarded m d = unless_failing (first_outcome d.outcomes) m (spent d)

abbrev pub missing : IoError
missing = record { kind = not_found; message = text "No such file or directory (os error 2)" }

abbrev pub not_utf8 : IoError
not_utf8 = record { kind = invalid_data; message = text "stream did not contain valid UTF-8" }

-- A call on a file that has to be there.
abbrev pub present : {A : Type 0} → Option Bytes → (Bytes → Fs A) → Fs A
present none f d = (err missing, d)
present (some bs) f d = f bs d

abbrev pub is_there : Option Bytes → Bool
is_there none = false
is_there (some bs) = true

abbrev pub seen_by : Outcome → Option Bytes → Bool
seen_by fine o = is_there o
seen_by (failing k e) o = false

-- `Path::exists`, which has no error: where the metadata cannot be read, it says no.
unfoldable pub exists : PathBuf → Fs Bool
exists path d = (ok (seen_by (first_outcome d.outcomes) (d.files path)), spent d)

-- `fs::metadata(path)?.len()`
unfoldable pub file_len : PathBuf → Fs ℕ
file_len path = guarded λ d. present (d.files path) (λ bs d'. (ok (length bs), d')) d

abbrev pub decoded : Result FromUtf8Error Text → Result IoError Text
decoded (ok t) = ok t
decoded (err e) = err not_utf8
decoded stuck = stuck

-- `fs::read_to_string`
unfoldable pub read_to_string : PathBuf → Fs Text
read_to_string path = guarded λ d. present (d.files path) (λ bs d'. (decoded (from_utf8 bs), d')) d

-- `fs::remove_file`
unfoldable pub remove_file : PathBuf → Fs (Unit {0})
remove_file path = guarded λ d. present (d.files path) (λ bs d'. (ok tt, put path none d')) d

-- `fs::rename`
unfoldable pub rename : PathBuf → PathBuf → Fs (Unit {0})
rename from to =
    guarded λ d. present (d.files from) (λ bs d'. (ok tt, put from none (put to (some bs) d'))) d

-- `File::create`. A `File` is known by its path.
unfoldable pub create : PathBuf → Fs PathBuf
create path = guarded λ d. (ok path, put path (some []) d)

-- `File::open`, and opening to append: the file has to be there.
unfoldable pub open_file : PathBuf → Fs PathBuf
open_file path = guarded λ d. present (d.files path) (λ bs d'. (ok path, d')) d

-- What is written to a file that was removed is lost.
abbrev pub append : PathBuf → Bytes → Option Bytes → Disk → Disk
append file bs none d = d
append file bs (some old) d = put file (some (old ++ bs)) d

abbrev pub write_by : Outcome → PathBuf → Bytes → Fs (Unit {0})
write_by fine file bs d = (ok tt, append file bs (d.files file) d)
write_by (failing k e) file bs d = (err e, append file (take k bs) (d.files file) d)

-- `File::write_all`, at the end of the file: only the one who writes changes it.
unfoldable pub write_all : PathBuf → Bytes → Fs (Unit {0})
write_all file bs d = write_by (first_outcome d.outcomes) file bs (spent d)

-- Goes on behind a call that succeeded.
abbrev pub and_also :
    {A B : Type 0} → Result IoError A × Disk → (A → Fs B) → Result IoError B × Disk
and_also (ok a, d) f = f a d
and_also (err e, d) f = (err e, d)
and_also (stuck, d) f = (stuck, d)

-- `fs::write`, which creates the file and then writes to it.
unfoldable pub write_file : PathBuf → Bytes → Fs (Unit {0})
write_file path bs d = and_also (create path d) (λ file. write_all file bs)
