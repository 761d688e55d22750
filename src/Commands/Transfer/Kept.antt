-- ===== src/Commands/Transfer/Kept.antt =====
-- src/commands.rs: a download to a target that is the object already.
use pipop_core.Base.{ℕ, suc, ◌≡◌, ◌∙◌, refl, sym, some, Bool, Bytes, Text, Result, length, ◌==◌}
use pipop_core.Error.{PtpIpError}
use pipop_core.Utf8.{from_utf8_lossy}
use pipop_core.Files.{fine, first_outcome, is_there, PathBuf, exists, file_len, open_file, rename}
use pipop_core.Files.Rules.{exists-fine-Does, Files, file_len-Does, open_file-Does, rename-Does}
use pipop_core.Commands.World.{World, on_disk, change_stats, pure, ◌>>=◌, ◌>>◌}
use pipop_core.Commands.World.Outcomes.{Ensures, resume-Ensures, if-Ensures, on_disk-Ensures}
use pipop_core.Commands.Resume.{get_temp_path, from_parts, from_target, check_resume_state}
use pipop_core.Commands.Resume.Started.{Whole, not_there, not_equal, same_size}
use pipop_core.Commands.Transfer.{
  ChunkDownloadConfig, Fetch, transfer_loop, complete_download, progress_checkpoints, download_from,
}
use pipop_core.Commands.Transfer.Ends.{different, no_round}

module _ (save_path : PathBuf) (name : Text) (named : save_path.file_name ≡ some name)
    (valid : from_utf8_lossy name ≡ name) (object : Bytes) where
  abbrev IsWhole : Files → Type 0
  IsWhole = Whole save_path name named valid object

  -- An error, and the target is the object still.
  abbrev pub Refused : {A : Type 0} → Result PtpIpError A × World → Type 0
  Refused = Ensures (λ a w'. ⊥) (λ w'. IsWhole w'.disk.files)

  -- The check says that all is there.
  abbrev Sees : Result PtpIpError (ℕ × PathBuf) × World → Type 0
  Sees =
      Ensures (λ p w'. (p.0 ≡ length object) × IsWhole w'.disk.files) (λ w'. IsWhole w'.disk.files)

  from_target-Sees :
      (w : World) → IsWhole w.disk.files → Sees (from_target save_path (length object) w)
  unfolding from_target
  from_target-Sees w h =
      let Sized : ℕ → Files → Type 0 = λ len f. IsWhole f × (len ≡ length object) in
      resume-Ensures (λ len w'. Sized len w'.disk.files) _ _ (on_disk (file_len save_path) w) _
        (on_disk-Ensures Sized IsWhole (file_len save_path) w (
          file_len-Does Sized IsWhole save_path w.disk h
            λ bs e. (h, same_size bs object (sym e ∙ h.0))))
        λ len w' (r, l).
          if-Ensures _ _ (len == length object)
            (on_disk (open_file save_path) >>= λ file. pure (length object, file))
            (from_parts save_path (length object)) w'
            (λ g.
              resume-Ensures (λ file w''. IsWhole w''.disk.files) _ _
                (on_disk (open_file save_path) w') _
                (on_disk-Ensures (λ file f. IsWhole f) IsWhole (open_file save_path) w'
                  (open_file-Does _ _ save_path w'.disk r λ bs e. r))
                λ file w'' b. (refl, b))
            (λ g. absurd (not_equal len (length object) g l))

  check_resume_state-Sees :
      (w : World)
      → first_outcome w.disk.outcomes ≡ fine
      → IsWhole w.disk.files
      → Sees (check_resume_state save_path (length object) w)
  unfolding check_resume_state
  check_resume_state-Sees w o h =
      let There : Bool → Files → Type 0 = λ there f. IsWhole f × (there ≡ is_there (f save_path)) in
      resume-Ensures (λ there w'. There there w'.disk.files) _ _ (on_disk (exists save_path) w) _
        (on_disk-Ensures There IsWhole (exists save_path) w
          (exists-fine-Does There IsWhole save_path w.disk o (h, refl)))
        λ there w' (h', t).
          if-Ensures _ _ there (from_target save_path (length object))
            (from_parts save_path (length object)) w' (λ e. from_target-Sees w' h')
            (λ e. absurd (not_there (w'.disk.files save_path) object (sym t ∙ e) h'.0))

  complete_download-Refused :
      (total : ℕ) (w : World) → IsWhole w.disk.files → Refused (complete_download save_path total w)
  unfolding complete_download
  complete_download-Refused total w h =
      resume-Ensures (λ u w'. ⊥) _ _ (on_disk (rename (get_temp_path save_path) save_path) w) _
        (on_disk-Ensures (λ u f. ⊥) IsWhole (rename (get_temp_path save_path) save_path) w
          (rename-Does _ _ (get_temp_path save_path) save_path w.disk h λ bs e. different h.1 e))
        λ u w' b. absurd b

  -- A download whose size is known.
  sized_Refused :
      (checkpoint : ℕ → ℕ → ℕ → ℕ) (fetch : Fetch) (config : ChunkDownloadConfig) (total : ℕ)
      (w : World)
      → first_outcome w.disk.outcomes ≡ fine
      → total ≡ length object
      → IsWhole w.disk.files
      → Refused (
          (check_resume_state save_path total >>= λ (current_offset, file).
          change_stats (λ stats. record stats { downloaded_bytes = current_offset })
          >> transfer_loop fetch save_path file total
              (progress_checkpoints checkpoint config.progress_interval total)
              config
              (suc total)
              current_offset
              0
          >> complete_download save_path total)
            w)
  sized_Refused checkpoint fetch config total w o e h =
      let checkpoints = progress_checkpoints checkpoint config.progress_interval (length object) in
      rw e (
        resume-Ensures (λ p w'. (p.0 ≡ length object) × IsWhole w'.disk.files) _ _
          (check_resume_state save_path (length object) w) _ (check_resume_state-Sees w o h)
          λ p w' b.
            rw
              (
                b.0,
                no_round save_path name named valid object fetch p.1 checkpoints config
                    (length object) (length object) 0,
              )
              (complete_download-Refused (length object) _ b.1))

  -- Where the target is the object already, with no temporary file beside it, a download fails, and
  -- the target is the object still. Any call on the files may fail but the first, which asks
  -- whether the target exists.
  pub download_from-Refused :
      (checkpoint : ℕ → ℕ → ℕ → ℕ) (fetch : Fetch) (config : ChunkDownloadConfig) (w : World)
      → first_outcome w.disk.outcomes ≡ fine
      → w.stats.total_bytes ≡ length object
      → Whole save_path name named valid object w.disk.files
      → Refused (download_from checkpoint fetch save_path config w)
  unfolding download_from
  download_from-Refused checkpoint fetch config w o e h =
      sized_Refused checkpoint fetch config w.stats.total_bytes w o e h
