-- ===== src/Commands/Download/Progress.antt =====
-- src/commands.rs: the retries of a chunk end.
use pipop_core.Base.{
  ℕ, zero, suc, ◌+◌, ◌≤◌, ◌<◌, Bytes, Result, ok, err, stuck, ltb, Bool-cases, inl, inr, arith,
}
use pipop_core.Error.{PtpIpError}
use pipop_core.External.{BigEndian, Random}
use pipop_core.Types.{SessionConfig, DownloadStats}
use pipop_core.Net.{Wire, generate_transaction_id}
use pipop_core.Net.Rules.{Kept, Ends, Ends-bind, Ends-of_Advances}
use pipop_core.Commands.Request.Progress.{Ends-send_command}
use pipop_core.Commands.Response.Progress.{Advances-receive_data_block}
use pipop_core.Commands.Download.{
  otherwise, one_more, slept, get_partial_object, retry_loop, download_with_retry,
}

-- A call that counts ends.
abbrev pub IsOver : Result PtpIpError Bytes × DownloadStats × Wire → Type 0
IsOver (ok bs, s, w) = Unit {0}
IsOver (err e, s, w) = Unit {0}
IsOver (stuck, s, w) = ⊥

otherwise-IsOver :
    (v : Wire) (p : Result PtpIpError Bytes × Wire)
    (f : PtpIpError → DownloadStats → Wire → Result PtpIpError Bytes × DownloadStats × Wire)
    (stats : DownloadStats) (w : Wire)
    → Kept v p
    → ((e : PtpIpError) (s : DownloadStats) (w' : Wire) → IsOver (f e s w'))
    → IsOver (otherwise p f stats w)
otherwise-IsOver v (ok a, w') f stats w h k = tt
otherwise-IsOver v (err e, w') f stats w h k = k e stats w'
otherwise-IsOver v (stuck, w') f stats w h k = h

module _ (be : BigEndian) (rng : Random) where
  Ends-generate_transaction_id : Ends (generate_transaction_id {E = PtpIpError} rng)
  unfolding generate_transaction_id
  Ends-generate_transaction_id = record { at = λ w. omega arith }

  Ends-get_partial_object :
      (object_handle offset length : ℕ) (config : SessionConfig)
      → Ends (get_partial_object be rng object_handle offset length config)
  unfolding get_partial_object
  Ends-get_partial_object object_handle offset length config =
      Ends-bind _ _ Ends-generate_transaction_id λ t.
        Ends-bind _ _ (Ends-send_command be _ t _ config)
          λ u. Ends-of_Advances _ (Advances-receive_data_block be t config)

  retry_loop-IsOver :
      (fuel retries object_handle offset length : ℕ) (config : SessionConfig)
      (stats : DownloadStats) (w : Wire)
      → retries ≤ config.max_retries
      → config.max_retries < retries + fuel
      → IsOver (retry_loop be rng fuel retries object_handle offset length config stats w)
  unfolding retry_loop
  retry_loop-IsOver zero retries object_handle offset length config stats w h l =
      absurd (omega arith)
  retry_loop-IsOver (suc fuel) retries object_handle offset length config stats w h l =
      otherwise-IsOver w (get_partial_object be rng object_handle offset length config w) _ stats w
        ((Ends-get_partial_object object_handle offset length config).at w)
        λ e s w'. elim (Bool-cases (ltb config.max_retries (retries + 1))) [
          | inl b ↦ rw b tt
          | inr b ↦ rw b (
              retry_loop-IsOver fuel (retries + 1) object_handle offset length config (one_more s)
                (slept config.retry_delay_ms w') (ground arith) (ground arith))
        ]

  -- A chunk is downloaded, or given up after as many attempts as the configuration allows.
  pub download_with_retry-IsOver :
      (object_handle offset length : ℕ) (config : SessionConfig) (stats : DownloadStats) (w : Wire)
      → IsOver (download_with_retry be rng object_handle offset length config stats w)
  unfolding download_with_retry
  download_with_retry-IsOver object_handle offset length config stats w =
      retry_loop-IsOver (config.max_retries + 1) 0 object_handle offset length config stats w
        (omega arith) (omega arith)
