-- ===== src/Commands/Transfer/Ends.antt =====
-- src/commands.rs: how a download ends.
use pipop_core.Base.{
  ℕ, suc, ◌≤◌, ◌<◌, ◌≡◌, ◌∙◌, refl, ap, Option, none, some, Bytes, Text, Result, List, ok, err,
  stuck, length, take-all, arith, false, ltb,
}
use pipop_core.Io.{IoError}
use pipop_core.Error.{PtpIpError}
use pipop_core.Utf8.{from_utf8_lossy}
use pipop_core.Files.{fine, first_outcome, PathBuf, Disk, remove_file, rename}
use pipop_core.Files.Rules.{Files, Does, remove_file-Does, rename-Does}
use pipop_core.Commands.World.{World, Action, on_disk, change_stats, ◌>>=◌, ◌>>◌}
use pipop_core.Commands.World.Outcomes.{
  Ensures, resume-Ensures, resume-Ensures_from, on_disk-Ensures,
}
use pipop_core.Commands.Resume.{get_resume_path, check_resume_state}
use pipop_core.Commands.Resume.Started.{
  Started, complete, partial, Whole, Whole-Ready, rename-Whole, Whole-no_resume,
}
use pipop_core.Commands.Resume.Checks.{check_resume_state-Starts}
use pipop_core.Commands.Transfer.{
  ChunkDownloadConfig, Fetch, transfer_loop, complete_download, progress_checkpoints, download_from,
}
use pipop_core.Commands.Transfer.Safety.{
  IsHonest, temp, Ready, Done, Going, Going-Ready, transfer_loop-Going,
}

-- A call whose result is thrown away.
pub ignored-Does :
    {A : Type 0} (P : Files → Type 0) (p : Result IoError A × Disk)
    → Does (λ a f. P f) P p
    → P p.1.files
ignored-Does P (ok a, d) h = h
ignored-Does P (err e, d) h = h
ignored-Does P (stuck, d) h = absurd h

pub different : {o : Option Bytes} {bs : Bytes} → o ≡ none → o ≡ some bs → ⊥
different h k = cc

module _ (save_path : PathBuf) (name : Text) (named : save_path.file_name ≡ some name)
    (valid : from_utf8_lossy name ≡ name) (object : Bytes) where
  abbrev temp_path : PathBuf
  temp_path = temp save_path name named valid object

  abbrev StaysReady : Files → Type 0
  StaysReady = Ready save_path name named valid object

  abbrev IsDone : Files → Type 0
  IsDone = Done save_path name named valid object

  abbrev Ends : Result PtpIpError (Unit {0}) × World → Type 0
  Ends = Ensures (λ u w'. IsDone w'.disk.files) (λ w'. StaysReady w'.disk.files)

  -- The resume file is removed, or not.
  cleaned :
      (w : World)
      → IsDone w.disk.files
      → IsDone (remove_file (get_resume_path save_path) w.disk).1.files
  cleaned w h = ignored-Does IsDone (remove_file (get_resume_path save_path) w.disk) (
      remove_file-Does (λ u f. IsDone f) IsDone (get_resume_path save_path) w.disk h
        λ bs e. Whole-no_resume save_path name named valid object w.disk h)

  complete_download-Done :
      (total : ℕ) (w : World)
      → StaysReady w.disk.files
      → Does (λ u f. IsDone f) StaysReady (rename temp_path save_path w.disk)
      → Ends (complete_download save_path total w)
  unfolding complete_download
  complete_download-Done total w h r =
      let P : Unit {0} → World → Type 0 = λ u w'. IsDone w'.disk.files in
      resume-Ensures P P (λ w'. StaysReady w'.disk.files) (on_disk (rename temp_path save_path) w) _
        (on_disk-Ensures (λ u f. IsDone f) StaysReady (rename temp_path save_path) w r)
        λ u w' g. cleaned w' g

  -- Without the temporary file, its renaming fails.
  no_temp :
      (d : Disk)
      → StaysReady d.files
      → d.files temp_path ≡ none
      → Does (λ u f. IsDone f) StaysReady (rename temp_path save_path d)
  no_temp d h e =
      rename-Does (λ u f. IsDone f) StaysReady temp_path save_path d h
        λ bs e'. absurd (different e e')

  -- Nothing is left to ask for.
  pub no_round :
      (fetch : Fetch) (file : PathBuf) (checkpoints : List ℕ) (config : ChunkDownloadConfig)
      (fuel total last : ℕ) (w : World)
      → transfer_loop fetch save_path file total checkpoints config (suc fuel) total last w
        ≡ (ok tt, w)
  unfolding transfer_loop
  no_round fetch file checkpoints config fuel total last w =
      let e : ltb total total ≡ false = ground arith in rw e refl

  -- The camera is honest from the offset on that the check of the files returns.
  abbrev pub IsHonestTo : Fetch → ChunkDownloadConfig → World → Type 0
  IsHonestTo fetch config w =
      (offset : ℕ) (file : PathBuf) (w' : World)
      → check_resume_state save_path (length object) w ≡ (ok (offset, file), w')
      → IsHonest object fetch config offset w'.wire

  module _ (fetch : Fetch) (config : ChunkDownloadConfig) (c : 0 < config.chunk_size)
      (checkpoints : List ℕ) where
    abbrev loop : PathBuf → ℕ → Action (Unit {0})
    loop file offset =
        transfer_loop fetch save_path file (length object) checkpoints config (suc (length object))
          offset 0

    -- The loop goes on behind a front of the object, and then ends.
    from_front :
        (offset : ℕ) (w : World)
        → IsHonest object fetch config offset w.wire
        → offset ≤ length object
        → Going save_path name named valid object offset w.disk.files
        → Ends ((loop temp_path offset >> complete_download save_path (length object)) w)
    from_front offset w honest l g =
        let P : Unit {0} → World → Type 0 =
          λ u w'. Going save_path name named valid object (length object) w'.disk.files in
        resume-Ensures P (λ u w'. IsDone w'.disk.files) (λ w'. StaysReady w'.disk.files)
          (loop temp_path offset w) _
          (transfer_loop-Going save_path name named valid object fetch checkpoints config
            (suc (length object)) offset 0 w honest c (omega arith) l g)
          λ u w' g'.
            let r =
              Going-Ready save_path name named valid object (length object) w'.disk.files g' in
            complete_download-Done (length object) w' r (
              rename-Whole save_path name named valid object w'.disk r
                (g'.0 ∙ ap some (take-all (length object) object (omega arith))))

    -- The part behind the check of the files.
    from_start :
        (offset : ℕ) (file : PathBuf) (w : World)
        → IsHonest object fetch config offset w.wire
        → Started save_path name named valid object offset file w.disk.files
        → Ends ((loop file offset >> complete_download save_path (length object)) w)
    from_start offset file w honest (complete e t n) =
        let r = Whole-Ready save_path name named valid object w.disk.files (t, n) in
        rw (e, no_round fetch file checkpoints config (length object) (length object) 0 w)
          (complete_download-Done (length object) w r (no_temp w.disk r n))
    from_start offset file w honest (partial e l t i) = rw e (from_front offset w honest l (t, i))

  -- A download whose size is known.
  sized_Ends :
      (checkpoint : ℕ → ℕ → ℕ → ℕ) (fetch : Fetch) (config : ChunkDownloadConfig) (total : ℕ)
      (w : World)
      → IsHonestTo fetch config w
      → first_outcome w.disk.outcomes ≡ fine
      → 0 < config.chunk_size
      → total ≡ length object
      → StaysReady w.disk.files
      → Ends (
          (check_resume_state save_path total >>= λ (current_offset, file).
          change_stats (λ stats. record stats { downloaded_bytes = current_offset })
          >> transfer_loop fetch save_path file total
              (progress_checkpoints checkpoint config.progress_interval total)
              config
              (suc total)
              current_offset
              0
          >> complete_download save_path total)
            w)
  sized_Ends checkpoint fetch config total w honest o c e r =
      let P : ℕ × PathBuf → World → Type 0 =
        λ p w'. Started save_path name named valid object p.0 p.1 w'.disk.files in
      rw e (
        resume-Ensures_from P (λ u w'. IsDone w'.disk.files) (λ w'. StaysReady w'.disk.files)
          (check_resume_state save_path (length object) w) _
          (check_resume_state-Starts save_path name named valid object w o r)
          λ p w' q s.
            from_start fetch config c
              (progress_checkpoints checkpoint config.progress_interval (length object)) p.0 p.1
              (record w' { stats = record w'.stats { downloaded_bytes = p.0 } })
              (honest p.0 p.1 w' q) s)

  -- Where each request that a download makes ends, with an error or with bytes of the object from the
  -- offset asked for on, the chunk size is above 0, the statistics have the object's size, the
  -- target's name is valid UTF-8 and the files are sound, a download ends. Any call on the files may
  -- fail but the first, which asks whether the target exists. On success the target is the object
  -- and there is no temporary file, and on an error the files are sound still.
  pub download_from-Ends :
      (checkpoint : ℕ → ℕ → ℕ → ℕ) (fetch : Fetch) (config : ChunkDownloadConfig) (w : World)
      → IsHonestTo fetch config w
      → first_outcome w.disk.outcomes ≡ fine
      → 0 < config.chunk_size
      → w.stats.total_bytes ≡ length object
      → Ready save_path name named valid object w.disk.files
      → Ensures
          (λ u w'. Whole save_path name named valid object w'.disk.files)
          (λ w'. Ready save_path name named valid object w'.disk.files)
          (download_from checkpoint fetch save_path config w)
  unfolding download_from
  download_from-Ends checkpoint fetch config w honest o c e r =
      sized_Ends checkpoint fetch config w.stats.total_bytes w honest o c e r
