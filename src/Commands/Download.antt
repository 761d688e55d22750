-- ===== src/Commands/Download.antt =====
-- src/commands.rs: downloading one chunk of an object, with retries.
pub mod Retries
pub mod Progress
pub mod Chunk
use pipop_core.Base.{ℕ, zero, suc, ◌+◌, ◌++◌, Bytes, Result, ok, err, stuck, ltb, if◌then◌else◌}
use pipop_core.Error.{PtpIpError}
use pipop_core.External.{BigEndian, Random}
use pipop_core.Types.{SessionConfig, DownloadStats, PtpOperationCode, operation_code}
use pipop_core.Net.{Wire, Net, ◌>>=◌, ◌>>◌, generate_transaction_id}
use pipop_core.Commands.Request.{send_command}
use pipop_core.Commands.Response.{receive_data_block}

-- A call that also changes the statistics of the download.
abbrev pub Counted : Type 0 → Type 0
Counted A = DownloadStats → Wire → Result PtpIpError A × DownloadStats × Wire

-- The `match` on a call's result that returns a success and hands an error on.
abbrev pub otherwise :
    {A : Type 0} → Result PtpIpError A × Wire → (PtpIpError → Counted A) → Counted A
otherwise (ok a, w') f stats w = (ok a, stats, w')
otherwise (err e, w') f stats w = f e stats w'
otherwise (stuck, w') f stats w = (stuck, stats, w')

-- `sleep(Duration::from_millis(ms))`
abbrev pub slept : ℕ → Wire → Wire
slept ms w = record w { clock = w.clock + ms }

-- `stats.retries += 1`
abbrev pub one_more : DownloadStats → DownloadStats
one_more stats = record stats { retries = stats.retries + 1 }

module _ (be : BigEndian) (rng : Random) where
  unfoldable pub get_partial_object : ℕ → ℕ → ℕ → SessionConfig → Net PtpIpError Bytes
  get_partial_object object_handle offset length config = do
    transaction_id ← generate_transaction_id rng
    send_command be (operation_code PtpOperationCode.get_partial_object) transaction_id
        (be.write_u32 object_handle ++ (be.write_u64 offset ++ be.write_u32 length)) config
    receive_data_block be transaction_id config

  -- The loop of `download_with_retry`. It is run with a round for each of the attempts.
  unfoldable pub retry_loop : ℕ → ℕ → ℕ → ℕ → ℕ → SessionConfig → Counted Bytes
  retry_loop zero retries object_handle offset length config stats w = (stuck, stats, w)
  retry_loop (suc fuel) retries object_handle offset length config stats w =
      otherwise (get_partial_object object_handle offset length config w)
        (λ e s w'.
          let again =
            retry_loop fuel (retries + 1) object_handle offset length config (one_more s)
              (slept config.retry_delay_ms w') in
          if ltb config.max_retries (retries + 1) then (err e, one_more s, w') else again)
        stats w

  unfoldable pub download_with_retry : ℕ → ℕ → ℕ → SessionConfig → Counted Bytes
  download_with_retry object_handle offset length config =
      retry_loop (config.max_retries + 1) 0 object_handle offset length config
