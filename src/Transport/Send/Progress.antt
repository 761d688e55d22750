-- ===== src/Transport/Send/Progress.antt =====
-- src/transport.rs: sending ends.
use pipop_core.Base.{
  ℕ, zero, suc, Bool-cases, inl, inr, ◌+◌, ◌≤◌, ◌<◌, List, [], ◌∷◌, Bytes, Result, ok, err, stuck,
  ltb, arith,
}
use pipop_core.Error.{PtpIpError}
use pipop_core.External.{BigEndian}
use pipop_core.Types.{PtpIpPacket, SessionConfig}
use pipop_core.Net.{Wire, Net, Writing, accept, refuse, write_all, write_with, flush, recover}
use pipop_core.Net.Rules.{Kept, Kept-after, Ends, Ends-bind, Ends-if, Ends-pure, Ends-question}
use pipop_core.Transport.Send.{is_empty, send_packet, send_loop, send_packet_with_retry}

write_with-Kept : (ws : List Writing) (bs : Bytes) (w : Wire) → Kept w (write_with ws bs w)
unfolding write_with
write_with-Kept [] bs w = omega arith
write_with-Kept (accept ∷ ws) bs w = omega arith
write_with-Kept (refuse n e ∷ ws) bs w = omega arith

Ends-write_all : (bs : Bytes) → Ends (write_all bs)
unfolding write_all
Ends-write_all bs = record { at = λ w. write_with-Kept w.writes bs w }

recover-Kept :
    {A : Type 0} (w : Wire) (p : Result PtpIpError A × Wire) (f : PtpIpError → Net PtpIpError A)
    → Kept w p
    → ((e : PtpIpError) (w' : Wire) → Kept w' (f e w'))
    → Kept w (recover p.0 f p.1)
recover-Kept w (ok a, w') f h k = h
recover-Kept w (err e, w') f h k = Kept-after w w' (f e w') h (k e w')
recover-Kept w (stuck, w') f h k = h

module _ (be : BigEndian) where
  Ends-send_packet : (packet : PtpIpPacket) → Ends (send_packet be packet)
  unfolding send_packet
  Ends-send_packet packet = Ends-bind _ _ (Ends-question _ (Ends-write_all _)) λ u.
      Ends-bind _ _
        (Ends-if (is_empty packet.payload) _ _ (Ends-pure tt)
          (Ends-question _ (Ends-write_all packet.payload)))
        λ u'. Ends-question flush (Ends-pure tt)

  send_loop-Kept :
      (fuel retries : ℕ) (packet : PtpIpPacket) (config : SessionConfig) (w : Wire)
      → retries ≤ config.max_retries
      → config.max_retries < retries + fuel
      → Kept w (send_loop be fuel retries packet config w)
  unfolding send_loop
  send_loop-Kept zero retries packet config w h l = absurd (omega arith)
  send_loop-Kept (suc fuel) retries packet config w h l =
      recover-Kept w (send_packet be packet w) _ ((Ends-send_packet packet).at w) λ e w'.
        elim (Bool-cases (ltb config.max_retries (retries + 1))) [
          | inl b ↦ rw b (omega arith)
          | inr b ↦ rw b (
              Kept-after w' (record w' { clock = w'.clock + config.retry_delay_ms }) _ (omega arith)
                (send_loop-Kept fuel (retries + 1) packet config
                  (record w' { clock = w'.clock + config.retry_delay_ms }) (ground arith)
                  (ground arith)))
        ]

  -- A packet is sent, or given up, after as many attempts as the configuration allows.
  pub Ends-send_packet_with_retry :
      (packet : PtpIpPacket) (config : SessionConfig)
      → Ends (send_packet_with_retry be packet config)
  unfolding send_packet_with_retry
  Ends-send_packet_with_retry packet config = record {
    at = λ w. send_loop-Kept (config.max_retries + 1) 0 packet config w (omega arith) (omega arith);
  }
