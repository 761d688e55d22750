-- ===== src/Commands/Transfer/Unseen.antt =====
-- src/commands.rs: a download to a complete target whose metadata cannot be read.
use pipop_core.Base.{
  ℕ, suc, ◌-◌, ◌%◌, ◌^◌, ◌<◌, ◌≡◌, refl, none, some, List, [], ◌∷◌, Bytes, Text, ok, err, length,
  arith, true, ltb, if◌then◌else◌,
}
use pipop_core.Io.{IoError}
use pipop_core.Error.{PtpIpError}
use pipop_core.Utf8.{from_utf8_lossy}
use pipop_core.Types.{DownloadStats}
use pipop_core.Net.{Wire}
use pipop_core.Files.{PathBuf, same_path, failing, exists, create, guarded}
use pipop_core.Files.Store.{same_path_refl}
use pipop_core.Files.Rules.{Files}
use pipop_core.Commands.Resume.Parts.{temp-ne-target}
use pipop_core.Commands.World.{World, Report}
use pipop_core.Commands.Resume.{
  get_temp_path, get_resume_path, check_resume_state, from_parts, from_beginning,
}
use pipop_core.Commands.Transfer.{
  ChunkDownloadConfig, Fetch, next_chunk_size, one_chunk, transfer_loop, progress_checkpoints,
  download_from,
}
use pipop_core.Commands.Transfer.Settled.{undisturbed, download_from_stale}

-- The first call on the files fails, and all others go well.
abbrev pub unseen : Wire → DownloadStats → List Report → ℕ → IoError → Files → World
unseen wire stats reports k e f = record {
  wire = wire;
  disk = record { files = f; outcomes = failing k e ∷ [] };
  stats = stats;
  reports = reports;
}

module _ (checkpoint : ℕ → ℕ → ℕ → ℕ) (fetch : Fetch) (config : ChunkDownloadConfig)
    (save_path : PathBuf) (name : Text) (named : save_path.file_name ≡ some name)
    (valid : from_utf8_lossy name ≡ name) (wire : Wire) (stats : DownloadStats)
    (reports : List Report) (k : ℕ) (e : IoError) (f : Files)
    (recorded : f (get_resume_path save_path) ≡ none)
    (no_temp : f (get_temp_path save_path) ≡ none) where
  -- The first run.
  abbrev before : World
  before = unseen wire stats reports k e f

  abbrev after : World
  after = (download_from checkpoint fetch save_path config before).1

  -- The temporary file begins anew, and no call fails any more.
  abbrev begun : World
  begun =
      undisturbed wire stats reports
        λ q. if same_path (get_temp_path save_path) q then some [] else f q

  not_seen :
      (total : ℕ)
      → check_resume_state save_path total before ≡ (ok (0, get_temp_path save_path), begun)
  unfolding check_resume_state exists from_parts from_beginning create guarded
  not_seen total = rw (recorded, no_temp) refl

  -- A first chunk that does not come.
  no_first_chunk :
      (file : PathBuf) (checkpoints : List ℕ) (x : PtpIpError) (total : ℕ) (w : World)
      → 0 < total
      → (fetch 0 (next_chunk_size config total % 2 ^ 32) w.stats w.wire).0 ≡ err x
      → ((transfer_loop fetch save_path file total checkpoints config (suc total) 0 0 w).0 ≡ err x)
        × ((transfer_loop fetch save_path file total checkpoints config (suc total) 0 0 w).1.disk
            ≡ w.disk)
  unfolding transfer_loop one_chunk
  no_first_chunk file checkpoints x total w l fails =
      let more : ltb 0 total ≡ true = ground arith in
      let z : total - 0 ≡ total = omega arith in rw (more, z, fails) (refl, refl)

  first_run :
      (x : PtpIpError)
      → 0 < stats.total_bytes
      → ((counts : DownloadStats)
          → (fetch 0 (next_chunk_size config stats.total_bytes % 2 ^ 32) counts wire).0 ≡ err x)
      → ((download_from checkpoint fetch save_path config before).0 ≡ err x)
        × ((download_from checkpoint fetch save_path config before).1.disk ≡ begun.disk)
  unfolding download_from
  first_run x l fails =
      let (r, d) =
        no_first_chunk (get_temp_path save_path)
          (progress_checkpoints checkpoint config.progress_interval stats.total_bytes) x
          stats.total_bytes (record begun { stats = record stats { downloaded_bytes = 0 } }) l
          (fails (record stats { downloaded_bytes = 0 })) in
      rw (not_seen stats.total_bytes, r) (refl, d)

  -- The target is the object, with no temporary file and no resume file beside it, but its metadata
  -- cannot be read when a download asks whether it exists, and the request for the first chunk ends with
  -- an error. The download fails with this error, and the target is still the object. The next
  -- download, where no call on the files fails, succeeds, and leaves an empty target, whatever the
  -- camera would answer. The object has a byte, both downloads have its size, and the target's name
  -- is valid UTF-8.
  pub download_from_unseen :
      (object : Bytes) (x : PtpIpError) (checkpoint' : ℕ → ℕ → ℕ → ℕ) (fetch' : Fetch)
      (config' : ChunkDownloadConfig) (wire' : Wire) (stats' : DownloadStats)
      (reports' : List Report)
      → f save_path ≡ some object
      → 0 < length object
      → length object ≡ stats.total_bytes
      → length object ≡ stats'.total_bytes
      → ((counts : DownloadStats)
          → (fetch 0 (next_chunk_size config stats.total_bytes % 2 ^ 32) counts wire).0 ≡ err x)
      → ((download_from checkpoint fetch save_path config before).0 ≡ err x)
        × (after.disk.files save_path ≡ some object)
        × ((download_from checkpoint' fetch' save_path config'
              (undisturbed wire' stats' reports' after.disk.files)).0
            ≡ ok tt)
        × ((download_from checkpoint' fetch' save_path config'
                (undisturbed wire' stats' reports' after.disk.files)).1.disk.files
              save_path
            ≡ some [])
  download_from_unseen object x checkpoint' fetch' config' wire' stats' reports' t l e e' fails =
      let (r, d) = first_run x (omega arith) fails in
      let there : after.disk.files save_path ≡ some object =
        rw (d, temp-ne-target save_path name named valid) t in
      let empty : after.disk.files (get_temp_path save_path) ≡ some [] =
        rw (d, same_path_refl (get_temp_path save_path)) refl in
      let (a, b) =
        download_from_stale checkpoint' fetch' config' save_path wire' stats' reports'
          after.disk.files name named valid object [] there e' empty in
      (r, there, a, b)
