-- ===== src/Commands/Transfer/Sent.antt =====
-- src/commands.rs: a download from a camera that sends each chunk in data blocks.
use pipop_core.Base.{
  ℕ, ◌+◌, ◌-◌, ◌^◌, ◌<◌, ◌≡◌, ◌∙◌, ap, sym, List, [], Bytes, Text, ok, some, none, length, take,
  drop, arith,
}
use mathlib.Core.Path.{subst}
use pipop_core.External.{BigEndian, Random}
use pipop_core.Utf8.{from_utf8_lossy}
use pipop_core.Types.{SessionConfig, DownloadStats, PtpOperationCode}
use pipop_core.Files.{PathBuf}
use pipop_core.Net.{Wire, Arrival}
use pipop_core.Net.Reading.{fed}
use pipop_core.Transport.Send.Packets.{writing}
use pipop_core.Commands.Response.Blocks.{Block, gathered, AllParts, block_arrivals, blocks_arrivals}
use pipop_core.Commands.Client.Answers.{after_exchange}
use pipop_core.Commands.Download.{download_with_retry}
use pipop_core.Commands.Download.Chunk.{chunk_params, get_partial_object_answered}
use pipop_core.Commands.Download.Retries.{retried, done, download_with_retry_lem}
use pipop_core.Commands.World.{World}
use pipop_core.Commands.Resume.{get_resume_path}
use pipop_core.Commands.Resume.Parts.{Incomplete}
use pipop_core.Commands.Transfer.{ChunkDownloadConfig, Fetch, download_object_with_resume}
use pipop_core.Commands.Transfer.Safety.{size_at}
use pipop_core.Commands.Transfer.Served.{Served, all_served, one_served, next_chunk_size_narrow}
use pipop_core.Commands.Transfer.Success.{Succeeds}
use pipop_core.Commands.Transfer.Resumed.{Stored, download_from_fresh}

module _ (be : BigEndian) (rng : Random) (object_handle : ℕ) (session : SessionConfig)
    (object : Bytes) (config : ChunkDownloadConfig) where
  abbrev pub asked : Fetch
  asked offset length = download_with_retry be rng object_handle offset length session

  abbrev size : ℕ → ℕ
  size offset = size_at object asked config offset

  -- What follows the command for a chunk.
  abbrev pub sent_chunk : ℕ → List Arrival → Wire → Wire
  sent_chunk offset rest w =
      after_exchange be rng PtpOperationCode.get_partial_object
        (chunk_params be object_handle offset (size offset)) rest w

  -- The camera sends the object from this offset on: for each chunk blocks of the transaction that
  -- is drawn for it, with the chunk's bytes and an empty block behind them. Blocks of other
  -- transactions may stand between them. No write fails.
  pub data Sends : ℕ → Wire → Type 0 where
    sends_nothing : {w : Wire} → Sends (length object) w
    sends_chunk :
        (offset : ℕ) (blocks : List Block) (rest : List Arrival) (w : Wire)
        → offset < length object
        → AllParts (rng.draw w.drawn) blocks
        → gathered (rng.draw w.drawn) blocks ≡ take (size offset) (drop offset object)
        → Sends (offset + size offset) (sent_chunk offset rest w)
        → Sends offset (
            fed
              (writing w [])
              (blocks_arrivals be blocks (block_arrivals be (rng.draw w.drawn, []) rest)))

  module _ (hh : object_handle < 2 ^ 32) (narrow : length object < 2 ^ 64)
      (u : config.chunk_size < 2 ^ 32) (v : config.min_chunk_size < 2 ^ 32) where
    asked_lem :
        (offset : ℕ) (blocks : List Block) (rest : List Arrival) (w : Wire) (stats : DownloadStats)
        → offset < length object
        → AllParts (rng.draw w.drawn) blocks
        → asked offset (size offset) stats (
            fed
              (writing w [])
              (blocks_arrivals be blocks (block_arrivals be (rng.draw w.drawn, []) rest)))
          ≡ (ok (gathered (rng.draw w.drawn) blocks), retried 0 stats, sent_chunk offset rest w)
    asked_lem offset blocks rest w stats l a =
        download_with_retry_lem be rng object_handle offset (size offset) session
          (gathered (rng.draw w.drawn) blocks) stats done
          (get_partial_object_answered be rng object_handle offset (size offset) blocks rest session
            w hh (omega arith) (next_chunk_size_narrow config (length object - offset) u v) a)
          (omega arith)

    pub Sends-Served :
        {offset : ℕ} {w : Wire} → Sends offset w → Served object asked config offset w
    Sends-Served sends_nothing = all_served
    Sends-Served (sends_chunk offset blocks rest w l a g s) =
        one_served
          (λ stats. ap (λ p. p.0) (asked_lem offset blocks rest w stats l a) ∙ ap (λ bs. ok bs) g)
          (λ stats.
            subst (λ x. Served object asked config (offset + size offset) x)
              (ap (λ p. p.2) (sym (asked_lem offset blocks rest w stats l a))) (Sends-Served s))

    module _ (save_path : PathBuf) (name : Text) (named : save_path.file_name ≡ some name)
        (valid : from_utf8_lossy name ≡ name) where
      -- A camera that sends the object in answer to the commands for its chunks: a first download
      -- over the protocol succeeds, with the object at the target, no temporary file and each byte
      -- counted. The target is not complete, there is no resume file, no call on the files and no
      -- write to the stream fails, the chunk size is above 0, it, the minimal one and the handle fit
      -- in 32 bits, the object is shorter than 2^64 bytes, the statistics have its size and the
      -- target's name is valid UTF-8.
      pub download_object_with_resume_sent :
          (checkpoint : ℕ → ℕ → ℕ → ℕ) (w : World)
          → 0 < config.chunk_size
          → w.disk.outcomes ≡ []
          → w.stats.total_bytes ≡ length object
          → Incomplete object (w.disk.files save_path)
          → w.disk.files (get_resume_path save_path) ≡ none
          → Sends 0 w.wire
          → Succeeds (Stored save_path name named valid object) (
              download_object_with_resume checkpoint be rng object_handle save_path session config
                w)
      unfolding download_object_with_resume
      download_object_with_resume_sent checkpoint w c o e i r s =
          download_from_fresh save_path name named valid object checkpoint asked config w narrow c u
            v o e i r (Sends-Served s)
