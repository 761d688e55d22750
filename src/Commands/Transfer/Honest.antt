-- ===== src/Commands/Transfer/Honest.antt =====
-- src/commands.rs: a camera that serves a download is honest to it.
use pipop_core.Base.{
  ℕ, ◌+◌, ◌-◌, ◌%◌, ◌^◌, ◌<◌, ◌≡◌, refl, sym, none, some, [], Bytes, Text, Result, ok, length, drop,
  take-length-take, arith,
}
use mathlib.Core.Path.{subst}
use pipop_core.Error.{PtpIpError}
use pipop_core.Utf8.{from_utf8_lossy}
use pipop_core.Files.{PathBuf}
use pipop_core.Net.{Wire}
use pipop_core.Commands.World.{World}
use pipop_core.Commands.Resume.{get_resume_path, check_resume_state}
use pipop_core.Commands.Resume.Parts.{Incomplete}
use pipop_core.Commands.Transfer.{ChunkDownloadConfig, Fetch}
use pipop_core.Commands.Transfer.Safety.{size_at, IsFaithful, IsHonest, nothing_asked, chunk_asked}
use pipop_core.Commands.Transfer.Ends.{IsHonestTo}
use pipop_core.Commands.Transfer.Served.{Served, all_served, one_served, next_chunk_size_narrow}
use pipop_core.Commands.Transfer.Resumed.{temp, Finds, passed_over, begins}

module _ (object : Bytes) (fetch : Fetch) (config : ChunkDownloadConfig)
    (u : config.chunk_size < 2 ^ 32) (v : config.min_chunk_size < 2 ^ 32) where
  -- The length of a chunk as the request has it.
  size_narrow :
      (offset : ℕ)
      → size_at object fetch config offset ≡ size_at object fetch config offset % 2 ^ 32
  size_narrow offset = omega (arith, next_chunk_size_narrow config (length object - offset) u v)

  Served-IsHonest :
      {offset : ℕ} {w : Wire}
      → Served object fetch config offset w
      → IsHonest object fetch config offset w
  Served-IsHonest all_served = nothing_asked
  Served-IsHonest (one_served {offset} {w} a r) =
      let size = size_at object fetch config offset in
      chunk_asked
        (λ stats.
          subst (λ n. IsFaithful object offset (fetch offset n stats w).0) (size_narrow offset)
            (rw (a stats) (take-length-take size (drop offset object))))
        (λ stats bs e l.
          subst (λ n. IsHonest object fetch config (offset + size) (fetch offset n stats w).2)
            (size_narrow offset) (Served-IsHonest (r stats)))

  module _ (save_path : PathBuf) (name : Text) (named : save_path.file_name ≡ some name)
      (valid : from_utf8_lossy name ≡ name) where
    IsHonest-from :
        (p : Result PtpIpError (ℕ × PathBuf) × World)
        → Finds save_path name named valid object (Served object fetch config 0) 0 p
        → (offset : ℕ) (file : PathBuf) (w : World) → p ≡ (ok (offset, file), w)
        → IsHonest object fetch config offset w.wire
    IsHonest-from p f offset file w e =
        let (i, t, h) =
          subst (Finds save_path name named valid object (Served object fetch config 0) 0) e f in
        subst (λ n. IsHonest object fetch config n w.wire) (sym i) (Served-IsHonest h.2)

    -- A first download is served.
    pub Served-IsHonestTo :
        (w : World)
        → w.disk.outcomes ≡ []
        → Incomplete object (w.disk.files save_path)
        → w.disk.files (get_resume_path save_path) ≡ none
        → Served object fetch config 0 w.wire
        → IsHonestTo save_path name named valid object fetch config w
    Served-IsHonestTo w o i r s =
        let Q = Served object fetch config 0 in
        IsHonest-from (check_resume_state save_path (length object) w) (
          passed_over save_path name named valid object Q 0 (w.disk.files save_path) w o refl s i
            λ w' o' f s'.
              begins save_path name named valid object Q
                (w'.disk.files (temp save_path name named valid object)) w' s' o' (rw f r) refl)
