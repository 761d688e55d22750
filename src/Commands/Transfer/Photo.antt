-- ===== src/Commands/Transfer/Photo.antt =====
-- src/commands.rs: `download_photo`, from the description of the object to the file.
use pipop_core.Base.{ℕ, ◌-◌, ◌^◌, ◌<◌, ◌≡◌, [], Bytes, Text, ok, some, none, length}
use pipop_core.External.{BigEndian, Random}
use pipop_core.Utf8.{from_utf8_lossy}
use pipop_core.Types.{ObjectInfo, default_download_stats}
use pipop_core.Files.{PathBuf}
use pipop_core.Net.{Wire}
use pipop_core.Commands.Client.{CameraClient, get_object_info}
use pipop_core.Commands.World.{World}
use pipop_core.Commands.World.Outcomes.{Ensures, resume-Ensures}
use pipop_core.Commands.Resume.{get_resume_path}
use pipop_core.Commands.Resume.Parts.{Incomplete}
use pipop_core.Commands.Transfer.{ChunkDownloadConfig, download_object_with_resume, download_photo}
use pipop_core.Commands.Transfer.Resumed.{Stored}
use pipop_core.Commands.Transfer.Sent.{Sends, download_object_with_resume_sent}

-- The camera describes an object, with its size, and sends it in answer to the commands for its
-- chunks. Then `download_photo` succeeds with the object at the target, and the statistics that it
-- returns count each byte. The target is not complete, there is no resume file, no call on the files
-- and no write to the stream fails, the chunk size is above 0, it, the minimal one and the handle fit
-- in 32 bits, the object is shorter than 2^64 bytes, and the target's name is valid UTF-8.
pub download_photo_sent :
    (be : BigEndian) (rng : Random) (client : CameraClient) (object_handle : ℕ) (info : ObjectInfo)
    (object : Bytes) (config : ChunkDownloadConfig) (save_path : PathBuf) (name : Text)
    (named : save_path.file_name ≡ some name) (valid : from_utf8_lossy name ≡ name)
    (checkpoint : ℕ → ℕ → ℕ → ℕ) (w : World) (wire : Wire)
    → object_handle < 2 ^ 32
    → length object < 2 ^ 64
    → 0 < config.chunk_size
    → config.chunk_size < 2 ^ 32
    → config.min_chunk_size < 2 ^ 32
    → w.disk.outcomes ≡ []
    → Incomplete object (w.disk.files save_path)
    → w.disk.files (get_resume_path save_path) ≡ none
    → get_object_info be rng client object_handle w.wire ≡ (ok info, wire)
    → info.object_size ≡ length object
    → Sends be rng object_handle client.config object config 0 wire
    → Ensures
        (λ stats w'.
          Stored save_path name named valid object w' × (stats.downloaded_bytes ≡ length object))
        (λ w'. ⊥)
        (download_photo checkpoint be rng client object_handle save_path config w)
unfolding download_photo
download_photo_sent be rng client object_handle info object config save_path name named valid
      checkpoint w wire hh narrow c u v o i r e z s =
    let start : World = record w {
      wire = wire;
      stats = record default_download_stats { total_bytes = info.object_size };
    } in
    rw e (
      resume-Ensures {A = Unit {0}} (λ x w'. Stored save_path name named valid object w')
        (λ stats w'.
          Stored save_path name named valid object w' × (stats.downloaded_bytes ≡ length object))
        (λ w'. ⊥)
        (download_object_with_resume checkpoint be rng object_handle save_path client.config config
          start)
        (λ x w'. (
          ok (record w'.stats { duration_ms = w'.wire.clock - w.wire.clock }),
          record w' { stats = record w'.stats { duration_ms = w'.wire.clock - w.wire.clock } },
        ))
        (download_object_with_resume_sent be rng object_handle client.config object config hh narrow
          u v save_path name named valid checkpoint start c o z i r s)
        λ x w' h. (h, h.1))
