-- ===== src/Commands/Resume/Started.antt =====
-- src/commands.rs: where a download begins, and the ways to begin it.
use pipop_core.Base.{
  ℕ, ◌≤◌, ◌≡◌, refl, sym, ◌∙◌, Option, none, some, Bytes, Text, Result, length, take, false, not,
  ◌==◌, if◌then◌else◌, arith,
}
use pipop_core.Error.{PtpIpError}
use pipop_core.Utf8.{from_utf8_lossy}
use pipop_core.Files.{PathBuf, Disk, Fs, exists, is_there, remove_file, rename, create, open_file}
use pipop_core.Files.Store.{same_path_refl}
use pipop_core.Files.Rules.{
  Files, with_file, Does, exists-Does, remove_file-Does, rename-Does, create-Does, open_file-Does,
}
use pipop_core.Commands.World.{World, Action, on_disk, pure, ◌>>=◌}
use pipop_core.Commands.World.Outcomes.{Ensures, resume-Ensures, if-Ensures, on_disk-Ensures}
use pipop_core.Commands.Resume.{
  get_temp_path, get_resume_path, restart, promote, go_on, from_beginning,
}
use pipop_core.Commands.Resume.Parts.{
  Incomplete, IsSound-no_temp, IsSound-object, IsReady, IsReady-temp, IsReady-no_resume,
  temp-ne-target, resume-ne-target, resume-ne-temp,
}

pub same_length : (a b : ℕ) → not (a == b) ≡ false → a ≡ b
same_length a b h = ground arith

pub not_equal : (a b : ℕ) → (a == b) ≡ false → a ≡ b → ⊥
not_equal a b h e = ground arith

pub same_size : (a b : Bytes) → some a ≡ some b → length a ≡ length b
same_size a b h = cc

pub not_there : (o : Option Bytes) (s : Bytes) → is_there o ≡ false → o ≡ some s → ⊥
not_there none s h e = cc
not_there (some x) s h e = cc

module _ (save_path : PathBuf) (name : Text) (named : save_path.file_name ≡ some name)
    (valid : from_utf8_lossy name ≡ name) (object : Bytes) where
  abbrev pub temp : PathBuf
  temp = get_temp_path save_path

  abbrev pub Ready : Files → Type 0
  Ready = IsReady save_path name named valid object

  -- Where a download begins: the object is there already, or the temporary file has its first bytes.
  pub data Started (offset : ℕ) (file : PathBuf) (f : Files) : Type 0 where
    complete :
        offset ≡ length object
        → f save_path ≡ some object
        → f (get_temp_path save_path) ≡ none
        → Started offset file f
    partial :
        file ≡ get_temp_path save_path
        → offset ≤ length object
        → f (get_temp_path save_path) ≡ some (take offset object)
        → Incomplete object (f save_path)
        → Started offset file f

  -- Sound files, and a target that is not complete.
  abbrev pub Before : Files → Type 0
  Before f = Ready f × Incomplete object (f save_path)

  abbrev pub Starts : Result PtpIpError (ℕ × PathBuf) × World → Type 0
  Starts = Ensures (λ r w. Started r.0 r.1 w.disk.files) (λ w. Ready w.disk.files)

  Before-no_temp : (d : Disk) → Before d.files → Before (with_file temp none d)
  Before-no_temp d h = (
    IsReady-temp save_path name named valid object none d (IsSound-no_temp object h.0),
    rw (temp-ne-target save_path name named valid) h.1,
  )

  Before-no_resume :
      (d : Disk) → Before d.files → Before (with_file (get_resume_path save_path) none d)
  Before-no_resume d h = (
    IsReady-no_resume save_path name named valid object d h.0,
    rw (resume-ne-target save_path name named valid) h.1,
  )

  -- A fresh temporary file.
  create-Started :
      (d : Disk) → Before d.files → Does (λ file f. Started 0 file f) Ready (create temp d)
  create-Started d h = create-Does _ _ temp d h.0 (
      partial refl (omega arith) (rw (same_path_refl temp) refl)
        (rw (temp-ne-target save_path name named valid) h.1))

  -- A step of the check, and one that is a call on files.
  pub after :
      {A : Type 0} (P : A → Files → Type 0) (m : Action A) (k : A → Action (ℕ × PathBuf))
      (w : World)
      → Ensures (λ a w'. P a w'.disk.files) (λ w'. Ready w'.disk.files) (m w)
      → ((a : A) (w' : World) → P a w'.disk.files → Starts (k a w'))
      → Starts ((m >>= k) w)
  after P m k w h t = resume-Ensures (λ a w'. P a w'.disk.files) _ _ (m w) k h t

  pub after_file :
      {A : Type 0} (P : A → Files → Type 0) (m : Fs A) (k : A → Action (ℕ × PathBuf)) (w : World)
      → Does P Ready (m w.disk)
      → ((a : A) (w' : World) → P a w'.disk.files → Starts (k a w'))
      → Starts ((on_disk m >>= k) w)
  after_file P m k w h t = after P (on_disk m) k w (on_disk-Ensures P Ready m w h) t

  begin-Starts :
      (w : World)
      → Before w.disk.files
      → Starts ((on_disk (create temp) >>= λ file. pure (0, file)) w)
  begin-Starts w h =
      after_file (λ file f. Started 0 file f) (create temp) _ w (create-Started w.disk h)
        λ file w' s. s

  remove_temp-Does : (d : Disk) → Before d.files → Does (λ u f. Before f) Ready (remove_file temp d)
  remove_temp-Does d h = remove_file-Does _ _ temp d h.0 λ bs e. Before-no_temp d h

  pub from_beginning-Starts :
      (w : World) → Before w.disk.files → Starts (from_beginning save_path w)
  unfolding from_beginning
  from_beginning-Starts w h =
      after_file (λ there f. Before f) (exists temp) _ w (exists-Does _ _ temp w.disk λ there. h)
        λ there w₁ h₁.
          after (λ u f. Before f) (if there then on_disk (remove_file temp) else pure tt) _ w₁
            (if-Ensures _ _ there (on_disk (remove_file temp)) (pure tt) w₁
              (λ e.
                on_disk-Ensures (λ u f. Before f) Ready (remove_file temp) w₁
                  (remove_temp-Does w₁.disk h₁))
              (λ e. h₁))
            λ u w' b. begin-Starts w' b

  pub restart-Starts : (w : World) → Before w.disk.files → Starts (restart save_path w)
  unfolding restart
  restart-Starts w h =
      after_file (λ u f. Before f) (remove_file (get_resume_path save_path)) _ w
        (remove_file-Does _ _ (get_resume_path save_path) w.disk h.0
          λ bs e. Before-no_resume w.disk h)
        λ u w' b.
          after_file (λ u f. Before f) (remove_file temp) _ w' (remove_temp-Does w'.disk b)
            λ u' w'' b'. begin-Starts w'' b'

  -- The object is in its place, with no temporary file.
  abbrev pub Whole : Files → Type 0
  Whole f = (f save_path ≡ some object) × (f temp ≡ none)

  pub Whole-Ready : (f : Files) → Whole f → Ready f
  Whole-Ready f h = rw (h.0, h.1) (IsSound-object object)

  -- The temporary file is renamed to the target.
  pub rename-Whole :
      (d : Disk)
      → Ready d.files
      → d.files temp ≡ some object
      → Does (λ u f. Whole f) Ready (rename temp save_path d)
  rename-Whole d h e = rename-Does _ _ temp save_path d h λ bs e'. (
    rw (temp-ne-target save_path name named valid, same_path_refl save_path) (sym e' ∙ e),
    rw (same_path_refl temp) refl,
  )

  pub Whole-no_resume :
      (d : Disk) → Whole d.files → Whole (with_file (get_resume_path save_path) none d)
  Whole-no_resume d h = (
    rw (resume-ne-target save_path name named valid) h.0,
    rw (resume-ne-temp save_path name named valid) h.1,
  )

  pub promote-Starts :
      (w : World)
      → Ready w.disk.files
      → w.disk.files temp ≡ some object
      → Starts (promote save_path (length object) w)
  unfolding promote
  promote-Starts w h e =
      after_file (λ u f. Whole f) (rename temp save_path) _ w (rename-Whole w.disk h e)
        λ u w' b.
          after_file (λ u f. Whole f) (remove_file (get_resume_path save_path)) _ w'
            (remove_file-Does _ _ (get_resume_path save_path) w'.disk (Whole-Ready w'.disk.files b)
              λ bs e'. Whole-no_resume w'.disk b)
            λ u' w'' b'.
              after_file (λ file f. Whole f) (open_file save_path) _ w''
                (open_file-Does _ _ save_path w''.disk (Whole-Ready w''.disk.files b') λ bs e'. b')
                λ file w₃ b₃. complete refl b₃.0 b₃.1

  pub go_on-Starts :
      (offset : ℕ) (w : World)
      → Before w.disk.files
      → offset ≤ length object
      → w.disk.files temp ≡ some (take offset object)
      → Starts (go_on save_path offset w)
  unfolding go_on
  go_on-Starts offset w h l e =
      after_file (λ file f. Started offset file f) (open_file temp) _ w
        (open_file-Does _ _ temp w.disk h.0 λ bs e'. partial refl l e h.1) λ file w' s. s
