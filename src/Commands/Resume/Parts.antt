-- ===== src/Commands/Resume/Parts.antt =====
-- src/commands.rs: the three files of a download, and what must hold of them.
use pipop_core.Base.{
  ℕ, ◌+◌, ◌≡◌, ◌≢◌, refl, sym, Option, none, some, ◌++◌, Bytes, Text, Result, ok, err, stuck,
  length, length-append, take, text, false, arith,
}
use pipop_core.Utf8.{from_utf8, from_utf8_lossy}
use pipop_core.Error.{FromUtf8Error}
use pipop_core.Str.{trim, parse_usize}
use pipop_core.Files.{PathBuf, Disk, same_path}
use pipop_core.Files.Store.{same_path_refl, same_path_ne}
use pipop_core.Files.Rules.{Files, with_file}
use pipop_core.Commands.Resume.{get_temp_path, get_resume_path}

-- The offset that a resume file records.
abbrev parsed : Result FromUtf8Error Text → Option ℕ
parsed (ok t) = parse_usize (trim t)
parsed (err e) = none
parsed stuck = none

abbrev pub recorded : Bytes → Option ℕ
recorded bs = parsed (from_utf8 bs)

-- The front of the object.
abbrev pub IsPrefix : Bytes → Bytes → Type 0
IsPrefix object t = t ≡ take (length t) object

-- The target file, where there is one, does not have the object's size.
abbrev pub Incomplete : Bytes → Option Bytes → Type 0
Incomplete object target = (s : Bytes) → target ≡ some s → length s ≢ length object

-- The target, the temporary file and the resume file: where the record fits the temporary file, that
-- is the front of the object, and a target of the object's size is the object, with no temporary
-- file beside it.
pub record IsSound (object : Bytes) (target temp resume : Option Bytes) : Type 0 where
  pub front :
      (t r : Bytes)
      → temp ≡ some t
      → resume ≡ some r
      → recorded r ≡ some (length t)
      → IsPrefix object t
  pub settled :
      (s : Bytes) → target ≡ some s → length s ≡ length object → (s ≡ object) × (temp ≡ none)

some-injective : {A : Type 0} {a b : A} → some a ≡ some b → a ≡ b
some-injective h = cc

prefix_same : (object t u : Bytes) → IsPrefix object t → t ≡ u → IsPrefix object u
prefix_same object t u h e = rw e at h

module _ (object : Bytes) where
  pub IsSound-no_temp : {s t r : Option Bytes} → IsSound object s t r → IsSound object s none r
  IsSound-no_temp h = record { front = λ t r e. cc; settled = λ s e l. ((h.settled s e l).0, refl) }

  pub IsSound-no_resume : {s t r : Option Bytes} → IsSound object s t r → IsSound object s t none
  IsSound-no_resume h = record { front = λ t r e f. cc; settled = h.settled }

  pub IsSound-prefix :
      {s r : Option Bytes} (t : Bytes)
      → IsPrefix object t
      → Incomplete object s
      → IsSound object s (some t) r
  IsSound-prefix t h i = record {
    front = λ u v e f g. prefix_same object t u h (some-injective e);
    settled = λ u e l. absurd (i u e l);
  }

  pub IsSound-object : {r : Option Bytes} → IsSound object (some object) none r
  IsSound-object = record { front = λ t r e. cc; settled = λ s e l. (sym (some-injective e), refl) }

-- The paths of the three files, for a target whose name is valid.
module _ (save_path : PathBuf) (name : Text) (named : save_path.file_name ≡ some name)
    (valid : from_utf8_lossy name ≡ name) where
  temp-name : (get_temp_path save_path).file_name ≡ some (text "." ++ (name ++ text ".download"))
  unfolding get_temp_path
  temp-name = rw (named, valid)

  resume-name : (get_resume_path save_path).file_name ≡ some (text "." ++ (name ++ text ".resume"))
  unfolding get_resume_path
  resume-name = rw (named, valid)

  length-temp_name : length (text "." ++ (name ++ text ".download")) ≡ length name + 10
  unfolding text
  length-temp_name = omega (arith, length-append name (text ".download"))

  length-resume_name : length (text "." ++ (name ++ text ".resume")) ≡ length name + 8
  unfolding text
  length-resume_name = omega (arith, length-append name (text ".resume"))

  pub temp-ne-target : same_path (get_temp_path save_path) save_path ≡ false
  temp-ne-target =
      same_path_ne (get_temp_path save_path) save_path _ name temp-name named
        (λ e. omega (arith, e, length-temp_name))

  pub target-ne-temp : same_path save_path (get_temp_path save_path) ≡ false
  target-ne-temp =
      same_path_ne save_path (get_temp_path save_path) name _ named temp-name
        (λ e. omega (arith, e, length-temp_name))

  pub resume-ne-target : same_path (get_resume_path save_path) save_path ≡ false
  resume-ne-target =
      same_path_ne (get_resume_path save_path) save_path _ name resume-name named
        (λ e. omega (arith, e, length-resume_name))

  pub target-ne-resume : same_path save_path (get_resume_path save_path) ≡ false
  target-ne-resume =
      same_path_ne save_path (get_resume_path save_path) name _ named resume-name
        (λ e. omega (arith, e, length-resume_name))

  pub temp-ne-resume : same_path (get_temp_path save_path) (get_resume_path save_path) ≡ false
  temp-ne-resume =
      same_path_ne (get_temp_path save_path) (get_resume_path save_path) _ _ temp-name resume-name
        (λ e. omega (arith, e, length-temp_name, length-resume_name))

  pub resume-ne-temp : same_path (get_resume_path save_path) (get_temp_path save_path) ≡ false
  resume-ne-temp =
      same_path_ne (get_resume_path save_path) (get_temp_path save_path) _ _ resume-name temp-name
        (λ e. omega (arith, e, length-temp_name, length-resume_name))

  module _ (object : Bytes) where
    -- The files of the download are sound.
    abbrev pub IsReady : Files → Type 0
    IsReady f =
        IsSound object (f save_path) (f (get_temp_path save_path)) (f (get_resume_path save_path))

    -- A change of the temporary file, and of the resume file.
    pub IsReady-temp :
        (content : Option Bytes) (d : Disk)
        → IsSound object (d.files save_path) content (d.files (get_resume_path save_path))
        → IsReady (with_file (get_temp_path save_path) content d)
    IsReady-temp content d h =
        rw (temp-ne-target, temp-ne-resume, same_path_refl (get_temp_path save_path)) h

    pub IsReady-no_resume :
        (d : Disk) → IsReady d.files → IsReady (with_file (get_resume_path save_path) none d)
    IsReady-no_resume d h =
        rw (resume-ne-target, resume-ne-temp, same_path_refl (get_resume_path save_path))
          (IsSound-no_resume object h)
