-- ===== src/Files/Rules.antt =====
-- What holds after a call on files, whether it succeeds or fails, with a rule for each call.
use pipop_core.Base.{
  false, ℕ, Bool, ◌≡◌, refl, Option, none, some, Bytes, Result, ok, err, stuck, ◌++◌, take, length,
  Text, [],
}
use pipop_core.Io.{IoError}
use pipop_core.Utf8.{from_utf8, checked, check_from}
use pipop_core.Error.{FromUtf8Error}
use pipop_core.Files.Store.{same_path_refl}
use pipop_core.Files.{
  same_path, PathBuf, Disk, Fs, Outcome, fine, failing, put, spent, unless_failing, first_outcome,
  guarded, present, exists, seen_by, is_there, decoded, file_len, read_to_string, remove_file,
  rename, create, open_file, write_by, write_all, and_also, write_file,
}

-- The files, whatever the coming calls do.
abbrev pub Files : Type 0
Files = PathBuf → Option Bytes

-- The files of a disk with other contents at one path.
abbrev pub with_file : PathBuf → Option Bytes → Disk → Files
with_file path content d = (put path content d).files

-- A call ends: with a value and files of `P`, or with an error and files of `Q`.
abbrev pub Does :
    {A : Type 0} → (A → Files → Type 0) → (Files → Type 0) → Result IoError A × Disk → Type 0
Does P Q (ok a, d) = P a d.files
Does P Q (err e, d) = Q d.files
Does P Q (stuck, d) = ⊥

module _ {A : Type 0} (P : A → Files → Type 0) (Q : Files → Type 0) where
  unless_failing-Does :
      (o : Outcome) (m : Fs A) (d : Disk)
      → Does P Q (m d)
      → Q d.files
      → Does P Q (unless_failing o m d)
  unless_failing-Does fine m d h k = h
  unless_failing-Does (failing n e) m d h k = k

  guarded-Does : (m : Fs A) (d : Disk) → Does P Q (m (spent d)) → Q d.files → Does P Q (guarded m d)
  unfolding guarded
  guarded-Does m d h k = unless_failing-Does (first_outcome d.outcomes) m (spent d) h k

  present-Does :
      (o : Option Bytes) (f : Bytes → Fs A) (d : Disk)
      → Q d.files
      → ((bs : Bytes) → o ≡ some bs → Does P Q (f bs d))
      → Does P Q (present o f d)
  present-Does none f d k h = k
  present-Does (some bs) f d k h = h bs refl

  -- A call on a file that has to be there.
  pub guarded-present-Does :
      (path : PathBuf) (f : Bytes → Fs A) (d : Disk)
      → Q d.files
      → ((bs : Bytes) → d.files path ≡ some bs → Does P Q (f bs (spent d)))
      → Does P Q (guarded (λ d'. present (d'.files path) f d') d)
  guarded-present-Does path f d k h =
      guarded-Does (λ d'. present (d'.files path) f d') d
        (present-Does (d.files path) f (spent d) k h) k

pub exists-Does :
    (P : Bool → Files → Type 0) (Q : Files → Type 0) (path : PathBuf) (d : Disk)
    → ((b : Bool) → P b d.files)
    → Does P Q (exists path d)
unfolding exists
exists-Does P Q path d h = h (seen_by (first_outcome d.outcomes) (d.files path))

-- Where the call does not fail, the answer is right.
pub exists-fine-Does :
    (P : Bool → Files → Type 0) (Q : Files → Type 0) (path : PathBuf) (d : Disk)
    → first_outcome d.outcomes ≡ fine
    → P (is_there (d.files path)) d.files
    → Does P Q (exists path d)
unfolding exists
exists-fine-Does P Q path d e h = rw e h

pub file_len-Does :
    (P : ℕ → Files → Type 0) (Q : Files → Type 0) (path : PathBuf) (d : Disk)
    → Q d.files
    → ((bs : Bytes) → d.files path ≡ some bs → P (length bs) d.files)
    → Does P Q (file_len path d)
unfolding file_len
file_len-Does P Q path d k h = guarded-present-Does P Q path (λ bs d'. (ok (length bs), d')) d k h

decoded-Does :
    (P : Text → Files → Type 0) (Q : Files → Type 0) (r : Result FromUtf8Error Text) (d : Disk)
    → Q d.files
    → ((t : Text) → r ≡ ok t → P t d.files)
    → (r ≡ stuck → ⊥)
    → Does P Q (decoded r, d)
decoded-Does P Q (ok t) d k h s = h t refl
decoded-Does P Q (err e) d k h s = k
decoded-Does P Q stuck d k h s = s refl

pub remove_file-Does :
    (P : Unit {0} → Files → Type 0) (Q : Files → Type 0) (path : PathBuf) (d : Disk)
    → Q d.files
    → ((bs : Bytes) → d.files path ≡ some bs → P tt (with_file path none d))
    → Does P Q (remove_file path d)
unfolding remove_file
remove_file-Does P Q path d k h =
    guarded-present-Does P Q path (λ bs d'. (ok tt, put path none d')) d k h

pub rename-Does :
    (P : Unit {0} → Files → Type 0) (Q : Files → Type 0) (from to : PathBuf) (d : Disk)
    → Q d.files
    → ((bs : Bytes) → d.files from ≡ some bs → P tt (with_file from none (put to (some bs) d)))
    → Does P Q (rename from to d)
unfolding rename
rename-Does P Q from to d k h =
    guarded-present-Does P Q from (λ bs d'. (ok tt, put from none (put to (some bs) d'))) d k h

pub create-Does :
    (P : PathBuf → Files → Type 0) (Q : Files → Type 0) (path : PathBuf) (d : Disk)
    → Q d.files
    → P path (with_file path (some []) d)
    → Does P Q (create path d)
unfolding create
create-Does P Q path d k h = guarded-Does P Q (λ d'. (ok path, put path (some []) d')) d h k

pub open_file-Does :
    (P : PathBuf → Files → Type 0) (Q : Files → Type 0) (path : PathBuf) (d : Disk)
    → Q d.files
    → ((bs : Bytes) → d.files path ≡ some bs → P path d.files)
    → Does P Q (open_file path d)
unfolding open_file
open_file-Does P Q path d k h = guarded-present-Does P Q path (λ bs d'. (ok path, d')) d k h

checked-ne-stuck : (o : Option FromUtf8Error) (bs : Bytes) → checked o bs ≡ stuck → ⊥
checked-ne-stuck none bs h = cc
checked-ne-stuck (some e) bs h = cc

from_utf8-ne-stuck : (bs : Bytes) → from_utf8 bs ≡ stuck → ⊥
unfolding from_utf8
from_utf8-ne-stuck bs h = checked-ne-stuck (check_from (length bs) 0 bs) bs h

pub read_to_string-Does :
    (P : Text → Files → Type 0) (Q : Files → Type 0) (path : PathBuf) (d : Disk)
    → Q d.files
    → ((bs : Bytes) (t : Text) → d.files path ≡ some bs → from_utf8 bs ≡ ok t → P t d.files)
    → Does P Q (read_to_string path d)
unfolding read_to_string
read_to_string-Does P Q path d k h =
    guarded-present-Does P Q path (λ bs d'. (decoded (from_utf8 bs), d')) d k
      λ bs e.
        decoded-Does P Q (from_utf8 bs) (spent d) k (λ t u. h bs t e u) (from_utf8-ne-stuck bs)

write_by-Does :
    (P : Unit {0} → Files → Type 0) (Q : Files → Type 0) (o : Outcome) (file : PathBuf)
    (bs old : Bytes) (d : Disk)
    → d.files file ≡ some old
    → P tt (with_file file (some (old ++ bs)) d)
    → ((k : ℕ) → Q (with_file file (some (old ++ take k bs)) d))
    → Does P Q (write_by o file bs d)
write_by-Does P Q fine file bs old d e h k = rw e h
write_by-Does P Q (failing n x) file bs old d e h k = rw e (k n)

-- A write to a file that is there adds the bytes, or a front of them.
pub write_all-Does :
    (P : Unit {0} → Files → Type 0) (Q : Files → Type 0) (file : PathBuf) (bs old : Bytes)
    (d : Disk)
    → d.files file ≡ some old
    → P tt (with_file file (some (old ++ bs)) d)
    → ((k : ℕ) → Q (with_file file (some (old ++ take k bs)) d))
    → Does P Q (write_all file bs d)
unfolding write_all
write_all-Does P Q file bs old d e h k =
    write_by-Does P Q (first_outcome d.outcomes) file bs old (spent d) e h k

-- The files agree but for one path.
abbrev pub Elsewhere : PathBuf → Files → Files → Type 0
Elsewhere path f g = (q : PathBuf) → same_path path q ≡ false → f q ≡ g q

-- `fs::write` behind the creation of the file.
write_created-Does :
    (P : Unit {0} → Files → Type 0) (Q : Files → Type 0) (o : Outcome) (path : PathBuf) (bs : Bytes)
    (d : Disk)
    → Q d.files
    → ((f : Files) → Elsewhere path f d.files → P tt f × Q f)
    → Does P Q (
        and_also
          (unless_failing o (λ d'. (ok path, put path (some []) d')) d)
          (λ file. write_all file bs))
write_created-Does P Q fine path bs d k h =
    let created = put path (some []) d in
    let here : created.files path ≡ some [] = rw (same_path_refl path) refl in
    let others = λ (content : Option Bytes). λ (q : PathBuf). λ (e : same_path path q ≡ false).
      let there : with_file path content created q ≡ d.files q = rw e refl in there in
    write_all-Does P Q path bs [] created here (h _ (others (some bs))).0
      (λ n. (h _ (others (some (take n bs)))).1)
write_created-Does P Q (failing n e) path bs d k h = k

-- `fs::write` leaves the other files as they are, also where it fails.
pub write_file-Does :
    (P : Unit {0} → Files → Type 0) (Q : Files → Type 0) (path : PathBuf) (bs : Bytes) (d : Disk)
    → Q d.files
    → ((f : Files) → Elsewhere path f d.files → P tt f × Q f)
    → Does P Q (write_file path bs d)
unfolding write_file create guarded
write_file-Does P Q path bs d k h =
    write_created-Does P Q (first_outcome d.outcomes) path bs (spent d) k h
