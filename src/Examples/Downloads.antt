-- ===== src/Examples/Downloads.antt =====
-- Downloads of an object of five bytes from a camera that holds it.
use pipop_core.Base.{
  ap, ◌%◌, ◌^◌, ℕ, ◌*◌, ◌/◌, ◌<◌, ◌≤◌, ◌≡◌, refl, none, some, [], ◌∷◌, Bytes, Text, ok, err, take,
  drop, decimal, arith, Option, if◌then◌else◌,
}
use pipop_core.Utf8.{from_utf8_lossy}
use pipop_core.Utf8.Laws.{from_utf8_ascii, from_utf8_lossy-valid}
use pipop_core.Error.{from_io}
use pipop_core.Types.{DownloadStats, default_download_stats}
use pipop_core.Files.{PathBuf, missing, same_path}
use pipop_core.Files.Store.{same_path_refl}
use pipop_core.Files.Rules.{Files}
use pipop_core.Commands.World.{World}
use pipop_core.Commands.Resume.{get_temp_path, get_resume_path}
use pipop_core.Commands.Resume.Parts.{
  IsSound, Incomplete, temp-ne-target, target-ne-temp, resume-ne-target, temp-ne-resume,
  target-ne-resume,
}
use pipop_core.Commands.Transfer.{Fetch, default_chunk_config, next_chunk_size, download_from}
use pipop_core.Commands.Transfer.Safety.{next_chunk_size-bounds}
use pipop_core.Commands.Transfer.Settled.{undisturbed, download_from_settled, download_from_stale}
use pipop_core.Commands.Transfer.Served.{Served, IsComplete, complete-Served}
use pipop_core.Commands.Transfer.Success.{Succeeds}
use pipop_core.Commands.Transfer.Resumed.{Stored, download_from_resumed}
use pipop_core.Io.{eof_error}
use pipop_core.Net.{Wire}
use pipop_core.Net.Reading.{fed}
use pipop_core.Transport.Send.Packets.{writing}
use pipop_core.Commands.Download.{download_with_retry}
use pipop_core.Commands.Download.Retries.{done, download_with_retry_gives_up}
use pipop_core.Commands.Transfer.Unseen.{unseen, download_from_unseen}
use pipop_core.Examples.Calls.{impatient, chunk_missed}
use pipop_core.Examples.Data.{quiet, network_order, counting}

abbrev pub object : Bytes
object = 11 ∷ 22 ∷ 33 ∷ 44 ∷ 55 ∷ []

abbrev pub name : Text
name = 97 ∷ 46 ∷ 106 ∷ 112 ∷ 103 ∷ []

abbrev pub save_path : PathBuf
save_path = record { parent = 47 ∷ []; file_name = some name }

pub valid : from_utf8_lossy name ≡ name
valid = from_utf8_lossy-valid name (
    from_utf8_ascii name
      (omega arith, (omega arith, (omega arith, (omega arith, (omega arith, tt))))))

abbrev fetch : Fetch
fetch offset len stats w = (ok (take len (drop offset object)), stats, w)

answers : IsComplete object fetch
answers offset len stats w = refl

abbrev pub checkpoint : ℕ → ℕ → ℕ → ℕ
checkpoint interval i total = i * 5 * total / 100

abbrev sized : DownloadStats
sized = record default_download_stats { total_bytes = 5 }

abbrev pub empty : Files
empty q = none

abbrev pub before : World
before = undisturbed quiet sized [] empty

pub empty-IsSound : IsSound object none none none
empty-IsSound = record { front = λ t r e. cc; settled = λ s e. cc }

next_chunk_size-bounds_example :
    (0 < next_chunk_size default_chunk_config 5) × (next_chunk_size default_chunk_config 5 ≤ 5)
next_chunk_size-bounds_example =
    next_chunk_size-bounds default_chunk_config 5 (omega arith) (omega arith)

served : (offset : ℕ) → offset ≤ 5 → Served object fetch default_chunk_config offset quiet
served offset l =
    complete-Served object fetch default_chunk_config 6 offset quiet answers (omega arith)
      (omega arith) (omega arith)

-- Two bytes were downloaded, and recorded.
abbrev resumable : Files
resumable q =
    if same_path (get_temp_path save_path) q
    then some (11 ∷ 22 ∷ [])
    else if same_path (get_resume_path save_path) q
    then some (decimal 2)
    else none

no_target : Incomplete object (resumable save_path)
no_target =
    rw (temp-ne-target save_path name refl valid, resume-ne-target save_path name refl valid)
      (λ s e. cc)

recorded_two : resumable (get_resume_path save_path) ≡ some (decimal 2)
recorded_two =
    rw (temp-ne-resume save_path name refl valid, same_path_refl (get_resume_path save_path)) refl

download_from_resumed_example : Succeeds (Stored save_path name refl valid object) (
    download_from checkpoint fetch save_path default_chunk_config
      (undisturbed quiet sized [] resumable))
download_from_resumed_example =
    download_from_resumed save_path name refl valid object checkpoint fetch default_chunk_config
      (undisturbed quiet sized [] resumable) (omega arith) (omega arith) (omega arith) (omega arith)
      refl 2 (omega arith) refl no_target recorded_two
      (rw (same_path_refl (get_temp_path save_path)) refl) (served 2 (omega arith))

abbrev photo : Bytes
photo = 1 ∷ 2 ∷ 3 ∷ 4 ∷ 5 ∷ []

-- A file of five bytes at the target, and beside it a temporary file or not.
abbrev settled : Option Bytes → Files
settled t q =
    if same_path save_path q
    then some photo
    else if same_path (get_temp_path save_path) q
    then t
    else none

settled_temp : (t : Option Bytes) → settled t (get_temp_path save_path) ≡ t
settled_temp t =
    rw (target-ne-temp save_path name refl valid, same_path_refl (get_temp_path save_path)) refl

download_from_settled_example :
    (download_from checkpoint fetch save_path default_chunk_config
      (undisturbed quiet sized [] (settled none))).0
    ≡ err (from_io missing)
download_from_settled_example =
    download_from_settled checkpoint fetch default_chunk_config save_path quiet sized []
      (settled none) photo (rw (same_path_refl save_path) refl) refl (settled_temp none)

download_from_stale_example :
    ((download_from checkpoint fetch save_path default_chunk_config
        (undisturbed quiet sized [] (settled (some (9 ∷ []))))).0
      ≡ ok tt)
    × ((download_from checkpoint fetch save_path default_chunk_config
            (undisturbed quiet sized [] (settled (some (9 ∷ []))))).1.disk.files
          save_path
        ≡ some (9 ∷ []))
download_from_stale_example =
    download_from_stale checkpoint fetch default_chunk_config save_path quiet sized []
      (settled (some (9 ∷ []))) name refl valid photo (9 ∷ []) (rw (same_path_refl save_path) refl)
      refl (settled_temp (some (9 ∷ [])))

-- The stream ends behind the command for the first chunk.
abbrev cut : Wire
cut = fed (writing quiet []) []

abbrev hurried : Fetch
hurried offset len = download_with_retry network_order counting 5 offset len impatient

missed :
    (counts : DownloadStats)
    → (hurried 0 (next_chunk_size default_chunk_config 5 % 2 ^ 32) counts cut).0
      ≡ err (from_io eof_error)
unfolding next_chunk_size
missed counts =
    ap (λ p. p.0)
      (download_with_retry_gives_up network_order counting 5 0 5 impatient (from_io eof_error)
        counts done chunk_missed refl)

unrecorded : settled none (get_resume_path save_path) ≡ none
unrecorded =
    rw (target-ne-resume save_path name refl valid, temp-ne-resume save_path name refl valid) refl

abbrev half_done : Files
half_done =
    (download_from checkpoint hurried save_path default_chunk_config
      (unseen cut sized [] 0 missing (settled none))).1.disk.files

download_from_unseen_example :
    ((download_from checkpoint hurried save_path default_chunk_config
        (unseen cut sized [] 0 missing (settled none))).0
      ≡ err (from_io eof_error))
    × (half_done save_path ≡ some photo)
    × ((download_from checkpoint hurried save_path default_chunk_config
          (undisturbed quiet sized [] half_done)).0
        ≡ ok tt)
    × ((download_from checkpoint hurried save_path default_chunk_config
            (undisturbed quiet sized [] half_done)).1.disk.files
          save_path
        ≡ some [])
download_from_unseen_example =
    download_from_unseen checkpoint hurried default_chunk_config save_path name refl valid cut sized
      [] 0 missing (settled none) unrecorded (settled_temp none) photo (from_io eof_error)
      checkpoint hurried default_chunk_config quiet sized [] (rw (same_path_refl save_path) refl)
      (omega arith) refl refl missed
