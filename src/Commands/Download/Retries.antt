-- ===== src/Commands/Download/Retries.antt =====
-- src/commands.rs: how `download_with_retry` goes on after failing attempts, and when it gives up.
use pipop_core.Base.{
  ℕ, zero, suc, ◌+◌, ◌≤◌, ◌<◌, ◌≡◌, refl, ap, Bytes, ok, err, ge→ltb, lt→ltb, arith,
}
use pipop_core.Error.{PtpIpError}
use pipop_core.External.{BigEndian, Random}
use pipop_core.Types.{SessionConfig, DownloadStats}
use pipop_core.Net.{Wire}
use pipop_core.Commands.Download.{
  get_partial_object, retry_loop, download_with_retry, slept, one_more,
}

-- The statistics after `n` more retries.
abbrev pub retried : ℕ → DownloadStats → DownloadStats
retried n stats = record stats { retries = stats.retries + n }

module _ (be : BigEndian) (rng : Random) (object_handle offset length : ℕ)
    (config : SessionConfig) where
  -- Attempts that fail one after the other, with the delay behind each: their number, and the
  -- states before and after.
  pub data Failing : ℕ → Wire → Wire → Type 0 where
    done : {w : Wire} → Failing 0 w w
    failed :
        {n : ℕ} {w w' w'' : Wire} {e : PtpIpError}
        → get_partial_object be rng object_handle offset length config w ≡ (err e, w')
        → Failing n (slept config.retry_delay_ms w') w''
        → Failing (suc n) w w''

  retry_loop-ok :
      (fuel retries : ℕ) (stats : DownloadStats) {n : ℕ} {w w' w'' : Wire} (bytes : Bytes)
      → Failing n w w'
      → get_partial_object be rng object_handle offset length config w' ≡ (ok bytes, w'')
      → n < fuel
      → n + retries ≤ config.max_retries
      → retry_loop be rng fuel retries object_handle offset length config stats w
        ≡ (ok bytes, retried n stats, w'')
  unfolding retry_loop
  retry_loop-ok zero retries stats bytes f g h l = absurd (omega arith)
  retry_loop-ok (suc fuel) retries stats {w'' = w''} bytes done g h l =
      rw g (ap (λ (k : ℕ). (ok bytes, record stats { retries = k }, w'')) (omega arith))
  retry_loop-ok (suc fuel) retries stats {w'' = w''} bytes (failed {n = n} e f) g h l =
      rw
        (
          e,
          ge→ltb config.max_retries (retries + 1) (omega arith),
          retry_loop-ok fuel (retries + 1) (one_more stats) bytes f g (omega arith) (omega arith),
        )
        (ap (λ (k : ℕ). (ok bytes, record stats { retries = k }, w'')) (omega arith))

  retry_loop-err :
      (fuel retries : ℕ) (stats : DownloadStats) {n : ℕ} {w w' w'' : Wire} (last : PtpIpError)
      → Failing n w w'
      → get_partial_object be rng object_handle offset length config w' ≡ (err last, w'')
      → n < fuel
      → n + retries ≡ config.max_retries
      → retry_loop be rng fuel retries object_handle offset length config stats w
        ≡ (err last, retried (n + 1) stats, w'')
  unfolding retry_loop
  retry_loop-err zero retries stats last f g h l = absurd (omega arith)
  retry_loop-err (suc fuel) retries stats {w'' = w''} last done g h l =
      rw (g, lt→ltb config.max_retries (retries + 1) (omega arith)) refl
  retry_loop-err (suc fuel) retries stats {w'' = w''} last (failed {n = n} e f) g h l =
      rw
        (
          e,
          ge→ltb config.max_retries (retries + 1) (omega arith),
          retry_loop-err fuel (retries + 1) (one_more stats) last f g (omega arith) (omega arith),
        )
        (ap (λ (k : ℕ). (err last, record stats { retries = k }, w'')) (omega arith))

  -- If at most `max_retries` attempts fail and the next one returns the data, the call returns
  -- them, and the number of the retries in the statistics grows by that of the failures.
  pub download_with_retry_lem :
      {n : ℕ} {w w' w'' : Wire} (bytes : Bytes) (stats : DownloadStats)
      → Failing n w w'
      → get_partial_object be rng object_handle offset length config w' ≡ (ok bytes, w'')
      → n ≤ config.max_retries
      → download_with_retry be rng object_handle offset length config stats w
        ≡ (ok bytes, retried n stats, w'')
  unfolding download_with_retry
  download_with_retry_lem bytes stats f g h =
      retry_loop-ok (config.max_retries + 1) 0 stats bytes f g (omega arith) (omega arith)

  -- If `max_retries` + 1 attempts fail, the call gives up with the last error. The statistics count
  -- one retry more than there were.
  pub download_with_retry_gives_up :
      {n : ℕ} {w w' w'' : Wire} (last : PtpIpError) (stats : DownloadStats)
      → Failing n w w'
      → get_partial_object be rng object_handle offset length config w' ≡ (err last, w'')
      → n ≡ config.max_retries
      → download_with_retry be rng object_handle offset length config stats w
        ≡ (err last, retried (n + 1) stats, w'')
  unfolding download_with_retry
  download_with_retry_gives_up last stats f g h =
      retry_loop-err (config.max_retries + 1) 0 stats last f g (omega arith) (omega arith)
