-- ===== src/Commands/Transfer.antt =====
-- src/commands.rs: downloading an object in chunks.
pub mod Unseen
pub mod Honest
pub mod Safety
pub mod Ends
pub mod Settled
pub mod Kept
pub mod Attempts
pub mod Served
pub mod Success
pub mod Resumed
pub mod Sent
pub mod Photo
pub mod Progress
use pipop_core.Base.{
  ℕ, zero, suc, ◌+◌, ◌-◌, ◌*◌, ◌%◌, ◌^◌, ◌&&◌, Option, none, some, List, [], ◌∷◌, ◌++◌, map, Bytes,
  Text, Result, ok, err, length, ltb, leb, min, not, true, false, ◌==◌, if◌then◌else◌, text,
  decimal,
}
use pipop_core.Error.{PtpIpError, protocol_error}
use pipop_core.External.{BigEndian, Random}
use pipop_core.Types.{SessionConfig, DownloadStats, ObjectInfo, default_download_stats}
use pipop_core.Net.{Wire}
use pipop_core.Files.{PathBuf, rename, remove_file, write_all}
use pipop_core.Commands.Client.{CameraClient, get_object_info}
use pipop_core.Commands.Download.{Counted, download_with_retry}
use pipop_core.Commands.Resume.{
  get_temp_path, get_resume_path, save_resume_state, check_resume_state,
}
use pipop_core.Commands.World.{
  World, Action, ◌>>=◌, ◌>>◌, pure, fail, out_of_fuel, on_disk, on_wire, ignoring, counted,
  change_stats, report,
}

-- `progress_interval` is an `f32`, by its bits.
pub record ChunkDownloadConfig : Type 0 where
  pub chunk_size : ℕ
  pub progress_interval : ℕ
  pub min_chunk_size : ℕ

-- `impl Default for ChunkDownloadConfig`; 0x40a00000 are the bits of 5.0.
abbrev pub default_chunk_config : ChunkDownloadConfig
default_chunk_config = record {
  chunk_size = 1024 * 1024;
  progress_interval = 0x40a0_0000;
  min_chunk_size = 1024 * 64;
}

-- How a chunk is asked for: by its offset and its length.
abbrev pub Fetch : Type 0
Fetch = ℕ → ℕ → Counted Bytes

unfoldable pub next_chunk_size : ChunkDownloadConfig → ℕ → ℕ
next_chunk_size config remaining =
    min (if ltb remaining config.min_chunk_size then remaining else config.chunk_size) remaining

-- The numbers from `start` on, so many.
abbrev range_from : ℕ → ℕ → List ℕ
range_from start zero = []
range_from start (suc n) = start ∷ range_from (start + 1) n

-- The first checkpoint that is reached and not reported yet.
unfoldable pub next_checkpoint : List ℕ → ℕ → ℕ → Option ℕ
next_checkpoint [] last_reported current_offset = none
next_checkpoint (p ∷ ps) last_reported current_offset =
    let rest = next_checkpoint ps last_reported current_offset in
    if ltb last_reported p && leb p current_offset then some p else rest

abbrev pub report_at : Option ℕ → ℕ → ℕ → ℕ → Action ℕ
report_at none last_reported current_offset total_size = pure last_reported
report_at (some p) last_reported current_offset total_size =
    report current_offset total_size false >> pure p

unfoldable pub incomplete_message : ℕ → ℕ → Text
incomplete_message chunk_size received =
    text "Incomplete chunk data: expected "
    ++ (decimal chunk_size ++ (text " bytes, received " ++ (decimal received ++ text " bytes")))

-- `stats.downloaded_bytes = offset; stats.chunks += 1`
abbrev pub one_chunk_more : ℕ → DownloadStats → DownloadStats
one_chunk_more offset stats = record stats { downloaded_bytes = offset; chunks = stats.chunks + 1 }

-- The rest of a round, behind the check of the data.
unfoldable pub store_chunk : PathBuf → PathBuf → ℕ → List ℕ → ℕ → ℕ → Bytes → Action ℕ
store_chunk save_path file total_size checkpoints current_offset last_reported bytes = do
  on_disk (write_all file bytes)
  change_stats (one_chunk_more current_offset)
  last_reported' ←
      report_at (next_checkpoint checkpoints last_reported current_offset) last_reported
        current_offset total_size
  save_resume_state save_path current_offset
  pure last_reported'

-- A round of the loop. It returns the checkpoint that was last reported.
unfoldable pub one_chunk : Fetch → PathBuf → PathBuf → ℕ → List ℕ → ℕ → ℕ → ℕ → Action ℕ
one_chunk fetch save_path file total_size checkpoints size current_offset last_reported = do
  bytes ← counted (fetch current_offset (size % 2 ^ 32))
  if not (length bytes == size)
      then (save_resume_state save_path current_offset
          >> fail (protocol_error (incomplete_message size (length bytes))))
      else store_chunk save_path file total_size checkpoints (current_offset + size) last_reported
          bytes

unfoldable pub transfer_loop :
    Fetch → PathBuf → PathBuf → ℕ → List ℕ → ChunkDownloadConfig → ℕ → ℕ → ℕ → Action (Unit {0})
transfer_loop fetch save_path file total_size checkpoints config zero current_offset last_reported =
    out_of_fuel
transfer_loop fetch save_path file total_size checkpoints config (suc fuel) current_offset
      last_reported =
    let size = next_chunk_size config (total_size - current_offset) in
    let round =
      one_chunk fetch save_path file total_size checkpoints size current_offset last_reported
      >>= transfer_loop fetch save_path file total_size checkpoints config fuel
          (current_offset + size) in
    if ltb current_offset total_size then round else pure tt

-- `flush` on a `File` does nothing.
unfoldable pub complete_download : PathBuf → ℕ → Action (Unit {0})
complete_download save_path total_size = do
  on_disk (rename (get_temp_path save_path) save_path)
  ignoring (remove_file (get_resume_path save_path))
  report total_size total_size true

-- `checkpoint interval i total` stands for `(i as f32 * interval / 100.0 * total as f32) as usize`.
module _ (checkpoint : ℕ → ℕ → ℕ → ℕ) where
  unfoldable pub progress_checkpoints : ℕ → ℕ → List ℕ
  progress_checkpoints interval total_size =
      map (λ i. checkpoint interval i total_size) (range_from 1 20)

  -- `download_object_with_resume` over a way to ask for chunks. A chunk has a byte at least, unless
  -- the chunk size is 0, so the size of the object is enough fuel.
  unfoldable pub download_from : Fetch → PathBuf → ChunkDownloadConfig → Action (Unit {0})
  download_from fetch save_path config w =
      let total_size = w.stats.total_bytes in
      (check_resume_state save_path total_size >>= λ (current_offset, file).
      change_stats (λ stats. record stats { downloaded_bytes = current_offset })
      >> transfer_loop fetch save_path file total_size
          (progress_checkpoints config.progress_interval total_size) config (suc total_size)
          current_offset 0
      >> complete_download save_path total_size)
        w

  module _ (be : BigEndian) (rng : Random) where
    unfoldable pub download_object_with_resume :
        ℕ → PathBuf → SessionConfig → ChunkDownloadConfig → Action (Unit {0})
    download_object_with_resume object_handle save_path session_config =
        download_from
          (λ offset length. download_with_retry be rng object_handle offset length session_config)
          save_path

    -- The statistics begin anew, and are returned.
    unfoldable pub download_photo :
        CameraClient → ℕ → PathBuf → ChunkDownloadConfig → Action DownloadStats
    download_photo client object_handle save_path config w =
        (change_stats (λ stats. default_download_stats)
            >> (on_wire (get_object_info be rng client object_handle) >>= λ object_info.
                change_stats (λ stats. record stats { total_bytes = object_info.object_size })
                >> download_object_with_resume object_handle save_path client.config config
                >> (λ w'. (
                  ok (record w'.stats { duration_ms = w'.wire.clock - w.wire.clock }),
                  record w' {
                    stats = record w'.stats { duration_ms = w'.wire.clock - w.wire.clock };
                  },
                ))))
          w
