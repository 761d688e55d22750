-- ===== src/Commands/Transfer/Attempts.antt =====
-- src/commands.rs: a download that is tried again and again, as a store with two states.
use pipop_core.Base.{
  ℕ, ◌<◌, ◌≡◌, Bool, true, false, List, [], ◌∷◌, Bytes, Text, Result, ok, err, stuck, some, length,
}
use pipop_core.Error.{PtpIpError}
use pipop_core.Utf8.{from_utf8_lossy}
use pipop_core.Files.{PathBuf, fine, first_outcome}
use pipop_core.Files.Rules.{Files}
use pipop_core.Commands.World.{World}
use pipop_core.Commands.World.Outcomes.{Ensures}
use pipop_core.Commands.Resume.Started.{Whole}
use pipop_core.Commands.Transfer.{ChunkDownloadConfig, Fetch, download_from}
use pipop_core.Commands.Transfer.Safety.{Ready, Done}
use pipop_core.Commands.Transfer.Ends.{IsHonestTo, download_from-Ends}
use pipop_core.Commands.Transfer.Kept.{Refused, download_from-Refused}

-- What a caller sees of the object.
pub data Store : Type 0 where
  absent stored : Store

-- An attempt to store it, by whether it succeeds: it fails, or it stores the object; where the
-- object is stored, it is refused.
pub data Change : Store → Bool → Store → Type 0 where
  failed : Change absent false absent
  succeeded : Change absent true stored
  refused : Change stored false stored

pub data Changes (s : Store) : List Bool → Store → Type 0 where
  none_yet : Changes s [] s
  and_then :
      {bs : List Bool} {b : Bool} {t u : Store}
      → Changes s bs t
      → Change t b u
      → Changes s (b ∷ bs) u

abbrev pub succeeds : Result PtpIpError (Unit {0}) → Bool
succeeds (ok u) = true
succeeds (err e) = false
succeeds stuck = false

module _ (save_path : PathBuf) (name : Text) (named : save_path.file_name ≡ some name)
    (valid : from_utf8_lossy name ≡ name) (object : Bytes) where
  -- One call of `download_from`, on some files. All else may have changed since the last call: the
  -- connection, the way to ask for chunks, the configuration, and which calls on the files will fail.
  pub data Attempt : Files → Bool → Files → Type 0 where
    attempt :
        (checkpoint : ℕ → ℕ → ℕ → ℕ) (fetch : Fetch) (config : ChunkDownloadConfig) (w : World)
        → IsHonestTo save_path name named valid object fetch config w
        → first_outcome w.disk.outcomes ≡ fine
        → 0 < config.chunk_size
        → w.stats.total_bytes ≡ length object
        → Attempt w.disk.files
            (succeeds (download_from checkpoint fetch save_path config w).0)
            (download_from checkpoint fetch save_path config w).1.disk.files

  -- The calls, the latest first.
  pub data Attempts (f : Files) : List Bool → Files → Type 0 where
    none_made : Attempts f [] f
    and_again :
        {bs : List Bool} {b : Bool} {g h : Files}
        → Attempts f bs g
        → Attempt g b h
        → Attempts f (b ∷ bs) h

  -- The files that a state of the store stands for.
  abbrev pub Shows : Store → Files → Type 0
  Shows absent f = Ready save_path name named valid object f
  Shows stored f = Whole save_path name named valid object f

  abbrev Follows : Store → Bool → Files → Type 0
  Follows s b f = (t : Store) × Change s b t × Shows t f

  absent-Follows :
      (p : Result PtpIpError (Unit {0}) × World)
      → Ensures
          (λ u w'. Done save_path name named valid object w'.disk.files)
          (λ w'. Ready save_path name named valid object w'.disk.files)
          p
      → Follows absent (succeeds p.0) p.1.disk.files
  absent-Follows (ok u, w) h = (stored, succeeded, h)
  absent-Follows (err e, w) h = (absent, failed, h)
  absent-Follows (stuck, w) h = absurd h

  stored-Follows :
      (p : Result PtpIpError (Unit {0}) × World)
      → Refused save_path name named valid object p
      → Follows stored (succeeds p.0) p.1.disk.files
  stored-Follows (ok u, w) h = absurd h
  stored-Follows (err e, w) h = (stored, refused, h)
  stored-Follows (stuck, w) h = absurd h

  Attempt-Follows :
      {f g : Files} {b : Bool} → Attempt f b g → (s : Store) → Shows s f → Follows s b g
  Attempt-Follows (attempt checkpoint fetch config w honest o c e) absent h =
      absent-Follows (download_from checkpoint fetch save_path config w) (
        download_from-Ends save_path name named valid object checkpoint fetch config w honest o c e
          h)
  Attempt-Follows (attempt checkpoint fetch config w honest o c e) stored h =
      stored-Follows (download_from checkpoint fetch save_path config w)
        (download_from-Refused save_path name named valid object checkpoint fetch config w o e h)

  -- Each run of attempts to download the same object is a run of the store with two states, with the
  -- same successes, and the files that it leaves are what the store shows: they are sound where the
  -- object is absent, and the object is in its place where it is stored. In each attempt, any call on
  -- the files may fail but the first, which asks whether the target exists. Each request that an
  -- attempt makes ends, with an error or with the object's bytes, the size of the object is known, a
  -- chunk has a byte, and the target's name is valid UTF-8.
  pub Attempts-Changes :
      {f g : Files} {bs : List Bool} (s : Store)
      → Attempts f bs g
      → Shows s f
      → (t : Store) × Changes s bs t × Shows t g
  Attempts-Changes s none_made h = (s, none_yet, h)
  Attempts-Changes s (and_again r a) h =
      let (t, cs, k) = Attempts-Changes s r h in
      let (u, c, l) = Attempt-Follows a t k in (u, and_then cs c, l)
