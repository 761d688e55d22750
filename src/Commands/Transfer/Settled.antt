-- ===== src/Commands/Transfer/Settled.antt =====
-- src/commands.rs: a download to a target that has the object's size already.
use pipop_core.Base.{
  ℕ, suc, ◌≡◌, refl, none, some, List, [], Bytes, Text, ok, err, length, arith, true, false, ltb,
  ◌==◌,
}
use pipop_core.Error.{from_io}
use pipop_core.Utf8.{from_utf8_lossy}
use pipop_core.Types.{DownloadStats}
use pipop_core.Net.{Wire}
use pipop_core.Files.{PathBuf, missing, rename, remove_file, file_len, exists, open_file, guarded}
use pipop_core.Files.Store.{same_path_refl}
use pipop_core.Files.Rules.{Files, remove_file-Does}
use pipop_core.Commands.Resume.Parts.{temp-ne-target, resume-ne-target}
use pipop_core.Commands.Transfer.Ends.{ignored-Does}
use pipop_core.Commands.World.{World, Report}
use pipop_core.Commands.Resume.{get_temp_path, get_resume_path, check_resume_state, from_target}
use pipop_core.Commands.Transfer.{
  ChunkDownloadConfig, Fetch, transfer_loop, complete_download, download_from,
}

-- Files whose coming calls all go well.
abbrev pub undisturbed : Wire → DownloadStats → List Report → Files → World
undisturbed wire stats reports f = record {
  wire = wire;
  disk = record { files = f; outcomes = [] };
  stats = stats;
  reports = reports;
}

module _ (checkpoint : ℕ → ℕ → ℕ → ℕ) (fetch : Fetch) (config : ChunkDownloadConfig)
    (save_path : PathBuf) (wire : Wire) (stats : DownloadStats) (reports : List Report)
    (f : Files) where
  abbrev here : World
  here = undisturbed wire stats reports f

  target_settled :
      (s : Bytes)
      → f save_path ≡ some s
      → length s ≡ stats.total_bytes
      → check_resume_state save_path stats.total_bytes here
        ≡ (ok (stats.total_bytes, save_path), here)
  unfolding check_resume_state exists from_target file_len open_file guarded
  target_settled s h l =
      let g : (length s == stats.total_bytes) ≡ true = ground arith in rw (h, h, g, h) refl

  no_round_settled :
      (file : PathBuf) (checkpoints : List ℕ) (fuel total last : ℕ) (w : World)
      → transfer_loop fetch save_path file total checkpoints config (suc fuel) total last w
        ≡ (ok tt, w)
  unfolding transfer_loop
  no_round_settled file checkpoints fuel total last w =
      let e : ltb total total ≡ false = ground arith in rw e refl

  -- Where no call on the files fails, and the target has the object's size already, without a
  -- temporary file beside it, a download fails: it renames the temporary file, which is missing.
  pub download_from_settled :
      (s : Bytes)
      → f save_path ≡ some s
      → length s ≡ stats.total_bytes
      → f (get_temp_path save_path) ≡ none
      → (download_from checkpoint fetch save_path config here).0 ≡ err (from_io missing)
  unfolding download_from guarded rename complete_download
  download_from_settled s h l t =
      rw
        (
          target_settled s h l,
          no_round_settled save_path _ stats.total_bytes stats.total_bytes 0 _,
          t,
        )
        refl

  -- Where no call on the files fails, and the target has the object's size and a valid name, with
  -- a temporary file beside it, a download succeeds, and that file replaces the target whatever it
  -- has.
  pub download_from_stale :
      (name : Text)
      → save_path.file_name ≡ some name
      → from_utf8_lossy name ≡ name
      → (s t : Bytes) → f save_path ≡ some s
      → length s ≡ stats.total_bytes
      → f (get_temp_path save_path) ≡ some t
      → ((download_from checkpoint fetch save_path config here).0 ≡ ok tt)
        × ((download_from checkpoint fetch save_path config here).1.disk.files save_path ≡ some t)
  unfolding download_from guarded rename complete_download
  download_from_stale name named valid s t h l e =
      rw
        (
          target_settled s h l,
          no_round_settled save_path _ stats.total_bytes stats.total_bytes 0 _,
          e,
        )
        (
          refl,
          ignored-Does (λ g. g save_path ≡ some t) (remove_file (get_resume_path save_path) _)
              (remove_file-Does (λ u g. g save_path ≡ some t) (λ g. g save_path ≡ some t)
                (get_resume_path save_path) _
                (rw (temp-ne-target save_path name named valid, same_path_refl save_path) refl)
                λ bs e'.
                  rw
                    (
                      resume-ne-target save_path name named valid,
                      temp-ne-target save_path name named valid,
                      same_path_refl save_path,
                    )
                    refl),
        )
