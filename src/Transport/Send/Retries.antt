-- ===== src/Transport/Send/Retries.antt =====
-- src/transport.rs: how `send_packet_with_retry` goes on after failing writes, and when it gives up.
use pipop_core.Base.{
  ℕ, zero, suc, ◌+◌, ◌*◌, ◌≤◌, ◌<◌, ◌≡◌, refl, ap, ◌∙◌, List, [], ◌∷◌, ◌++◌, Bytes, ok, err, length,
  take, ge→ltb, lt→ltb, arith,
}
use pipop_core.Io.{IoError}
use pipop_core.Error.{from_io, other}
use pipop_core.External.{BigEndian}
use pipop_core.Types.{PtpIpPacket, SessionConfig}
use pipop_core.Net.{Wire, Writing, refuse}
use pipop_core.Transport.Send.{send_loop, send_packet_with_retry, retries_message}
use pipop_core.Transport.Send.Packets.{
  packet_header, packet_bytes, writing, send_packet_lem, send_packet_refused,
}
use mathlib.Core.List.{append_assoc}

-- Failing writes of the header, each after some bytes and with its error.
abbrev pub refusals : List (ℕ × IoError) → List Writing → List Writing
refusals [] outcomes = outcomes
refusals ((k, e) ∷ fs) outcomes = refuse k e ∷ refusals fs outcomes

-- The parts of the header that they leave on the wire.
abbrev pub fragments : Bytes → List (ℕ × IoError) → Bytes
fragments header [] = []
fragments header ((k, e) ∷ fs) = take k header ++ fragments header fs

append_regroup : (a b c d : Bytes) → (a ++ b) ++ (c ++ d) ≡ a ++ ((b ++ c) ++ d)
append_regroup a b c d = simp append_assoc

-- Two ways to write one state.
pub moved :
    {R : Type 0} {r : R} (w : Wire) {o o' : Bytes} {c c' : ℕ}
    → o ≡ o'
    → c ≡ c'
    → ◌≡◌ {A = R × Wire}
        (r, record w { outgoing = o; clock = c; writes = [] })
        (r, record w { outgoing = o'; clock = c'; writes = [] })
moved {r = r} w p q = λ i. (r, record w { outgoing = p i; clock = q i; writes = [] })

module _ (be : BigEndian) (packet : PtpIpPacket) (config : SessionConfig) where
  abbrev pub after_failures : List (ℕ × IoError) → Wire → Wire
  after_failures fs w = record w {
    outgoing = w.outgoing ++ (fragments (packet_header be packet) fs ++ packet_bytes be packet);
    clock = w.clock + length fs * config.retry_delay_ms;
    writes = [];
  }

  send_loop-refusals :
      (fs : List (ℕ × IoError)) (fuel retries : ℕ) (w : Wire)
      → length fs < fuel
      → length fs + retries ≤ config.max_retries
      → send_loop be fuel retries packet config (writing w (refusals fs []))
        ≡ (ok tt, after_failures fs w)
  unfolding send_loop
  send_loop-refusals fs zero retries w h l = absurd (omega arith)
  send_loop-refusals [] (suc fuel) retries w h l =
      rw (send_packet_lem be packet w) (moved w refl (omega arith))
  send_loop-refusals ((k, e) ∷ fs) (suc fuel) retries w h l =
      rw
        (
          send_packet_refused be packet w k e (refusals fs []),
          ge→ltb config.max_retries (retries + 1) (omega arith),
          send_loop-refusals fs fuel (retries + 1)
              (record w {
                outgoing = w.outgoing ++ take k (packet_header be packet);
                clock = w.clock + config.retry_delay_ms;
              })
              (omega arith) (omega arith),
        )
        (moved w (append_regroup w.outgoing _ _ _) (omega arith))

  send_loop-gives_up :
      (fs : List (ℕ × IoError)) (k : ℕ) (e : IoError) (fuel retries : ℕ) (w : Wire)
      → length fs < fuel
      → length fs + retries ≡ config.max_retries
      → send_loop be fuel retries packet config (writing w (refusals fs (refuse k e ∷ []))) ≡ (
        err (other (retries_message config.max_retries (from_io e))),
        record w {
          outgoing =
              w.outgoing
              ++ (fragments (packet_header be packet) fs ++ take k (packet_header be packet));
          clock = w.clock + length fs * config.retry_delay_ms;
          writes = [];
        },
      )
  unfolding send_loop
  send_loop-gives_up fs k e zero retries w h l = absurd (omega arith)
  send_loop-gives_up [] k e (suc fuel) retries w h l =
      rw
        (
          send_packet_refused be packet w k e [],
          lt→ltb config.max_retries (retries + 1) (omega arith),
        )
        (moved w refl (omega arith))
  send_loop-gives_up ((j, d) ∷ fs) k e (suc fuel) retries w h l =
      rw
        (
          send_packet_refused be packet w j d (refusals fs (refuse k e ∷ [])),
          ge→ltb config.max_retries (retries + 1) (omega arith),
          send_loop-gives_up fs k e fuel (retries + 1)
              (record w {
                outgoing = w.outgoing ++ take j (packet_header be packet);
                clock = w.clock + config.retry_delay_ms;
              })
              (omega arith) (omega arith),
        )
        (moved w (append_regroup w.outgoing _ _ _) (omega arith))

  -- If the first writes, at most `max_retries` of them, fail in the header and no later one
  -- fails, the packet is sent. What the failing writes let out stays in front of it, and each
  -- costs the retry delay.
  pub send_packet_with_retry_lem :
      (fs : List (ℕ × IoError)) (w : Wire)
      → length fs ≤ config.max_retries
      → send_packet_with_retry be packet config (writing w (refusals fs []))
        ≡ (ok tt, after_failures fs w)
  unfolding send_packet_with_retry
  send_packet_with_retry_lem fs w h =
      send_loop-refusals fs (config.max_retries + 1) 0 w (omega arith) (omega arith)

  -- If `max_retries` + 1 writes of the header fail, the call gives up with the last error, after
  -- `max_retries` delays.
  pub send_packet_with_retry_gives_up :
      (fs : List (ℕ × IoError)) (k : ℕ) (e : IoError) (w : Wire)
      → length fs ≡ config.max_retries
      → send_packet_with_retry be packet config (writing w (refusals fs (refuse k e ∷ []))) ≡ (
        err (other (retries_message config.max_retries (from_io e))),
        record w {
          outgoing =
              w.outgoing
              ++ (fragments (packet_header be packet) fs ++ take k (packet_header be packet));
          clock = w.clock + config.max_retries * config.retry_delay_ms;
          writes = [];
        },
      )
  unfolding send_packet_with_retry
  send_packet_with_retry_gives_up fs k e w h =
      send_loop-gives_up fs k e (config.max_retries + 1) 0 w (omega arith) (omega arith)
      ∙ moved w refl (ap (λ (t : ℕ). w.clock + t * config.retry_delay_ms) h)
