-- ===== src/Commands/Request/Laws.antt =====
-- src/commands.rs: the bytes of a command, and parameters that are no whole numbers.
use pipop_core.Base.{
  ℕ, zero, suc, ◌*◌, ◌%◌, ◌^◌, ◌≤◌, ◌<◌, ◌≡◌, ◌≢◌, ◌∙◌, refl, List, [], ◌∷◌, ◌++◌, Bytes, ok, err,
  length, length-append, length-drop, drop, All, arith,
}
use pipop_core.Io
use pipop_core.Io.{eof_error}
use pipop_core.Error.{PtpIpError}
use pipop_core.External.{BigEndian}
use pipop_core.Types.{SessionConfig, message_code}
use pipop_core.Net.{Wire}
use pipop_core.Utils.Numbers.{write_u32_same}
use pipop_core.Transport.Header.{to_bytes}
use pipop_core.Transport.Header.RoundTrip.{front_bytes, length-write_u32}
use pipop_core.Transport.Infos.{get_u32}
use pipop_core.Transport.Infos.Devices.{get_u32-write}
use pipop_core.Transport.Infos.Short.{get_u32-Takes, at_end}
use pipop_core.Transport.Send.{header_of_packet}
use pipop_core.Transport.Send.Packets.{writing}
use pipop_core.Transport.Send.Retries.{send_packet_with_retry_lem, moved}
use pipop_core.Commands.Request.{
  params_loop, parse_params, write_params, command_bytes, command_packet, new_command, send_command,
}
use native.Mathlib.Decide.{dec_lt}

-- One round of the loop.
params_loop_step :
    (fuel p : ℕ) (bs rest : Bytes)
    → 0 < length bs
    → get_u32 bs ≡ ok (p, rest)
    → params_loop (suc fuel) bs
      ≡ Io.◌>>=◌ (params_loop fuel) (λ ps. Io.pure {E = PtpIpError} (p ∷ ps)) rest
unfolding params_loop
params_loop_step fuel p [] rest h e = absurd (omega arith)
params_loop_step fuel p (b ∷ bs) rest h e = rw e

params_loop_short :
    (fuel : ℕ) (bs : Bytes) → 0 < length bs → length bs < 4 → params_loop (suc fuel) bs ≡ err at_end
unfolding params_loop
params_loop_short fuel [] h l = absurd (omega arith)
params_loop_short fuel (b ∷ bs) h l = rw (get_u32-Takes.short (b ∷ bs) l)

params_loop_ragged :
    (fuel : ℕ) (bs : Bytes)
    → length bs ≤ fuel
    → length bs % 4 ≢ 0
    → params_loop fuel bs ≡ err at_end
params_loop_ragged zero bs h r = absurd (omega arith)
params_loop_ragged (suc fuel) bs h r = elim (dec_lt (length bs) 4) [
  | yes p ↦ params_loop_short fuel bs (omega arith) p
  | no p ↦
      let (n, q) = get_u32-Takes.enough bs (omega arith) in
      params_loop_step fuel n bs (drop 4 bs) (omega arith) q
      ∙ rw (
          params_loop_ragged fuel (drop 4 bs) (omega (arith, length-drop 4 bs))
            (λ e. r (omega (arith, length-drop 4 bs, e))))
]

-- Parameters whose bytes are not a multiple of four are refused, whatever the rest of the call is:
-- nothing is written, and the state stays as it is.
pub send_command_ragged :
    (be : BigEndian) (opcode transaction_id : ℕ) (parameters : Bytes) (config : SessionConfig)
    (w : Wire)
    → length parameters % 4 ≢ 0
    → send_command be opcode transaction_id parameters config w ≡ (err at_end, w)
unfolding send_command parse_params
send_command_ragged be opcode transaction_id parameters config w h =
    rw (params_loop_ragged (length parameters) parameters (omega arith) h)

module _ (be : BigEndian) where
  pub get_u32-crate :
      (n : ℕ) (rest : Bytes) → n < 2 ^ 32 → get_u32 (be.write_u32 n ++ rest) ≡ ok (n, rest)
  get_u32-crate n rest h = rw (write_u32_same be n h) (get_u32-write n rest h)

  params_loop-write_params :
      (ps : List ℕ) (fuel : ℕ)
      → All (λ p. p < 2 ^ 32) ps
      → length ps ≤ fuel
      → params_loop fuel (write_params be ps) ≡ ok (ps, [])
  unfolding write_params
  params_loop-write_params [] fuel h l = unfold params_loop in refl
  params_loop-write_params (p ∷ ps) zero h l = absurd (omega arith)
  params_loop-write_params (p ∷ ps) (suc fuel) h l =
      params_loop_step fuel p (be.write_u32 p ++ write_params be ps) (write_params be ps)
        (omega
          (arith, length-append (be.write_u32 p) (write_params be ps), length-write_u32 be p h.0))
        (get_u32-crate p (write_params be ps) h.0)
      ∙ rw (params_loop-write_params ps fuel h.1 (omega arith))

  length-write_params :
      (ps : List ℕ) → All (λ p. p < 2 ^ 32) ps → length (write_params be ps) ≡ 4 * length ps
  unfolding write_params
  length-write_params [] h = refl
  length-write_params (p ∷ ps) h = omega (
    arith,
    length-append (be.write_u32 p) (write_params be ps),
    length-write_u32 be p h.0,
    length-write_params ps h.1,
  )

  parse_params-write_params :
      (ps : List ℕ) → All (λ p. p < 2 ^ 32) ps → parse_params (write_params be ps) ≡ ok ps
  unfolding parse_params
  parse_params-write_params ps h = rw (
      params_loop-write_params ps (length (write_params be ps)) h
        (omega (arith, length-write_params ps h)))

  -- With no failing write and parameters of 32 bits, `send_command` puts one packet on the wire:
  -- the header of a command block, a zero version, the operation code, the number of the
  -- parameters modulo 2^16, and the bytes of the parameters as they were given. Nothing else
  -- changes.
  pub send_command_lem :
      (opcode transaction_id : ℕ) (ps : List ℕ) (config : SessionConfig) (w : Wire)
      → All (λ p. p < 2 ^ 32) ps
      → send_command be opcode transaction_id (write_params be ps) config (writing w []) ≡ (
        ok tt,
        record w {
          outgoing =
              w.outgoing
              ++ (front_bytes be 3 0 transaction_id
                  ++ (be.write_u16 0
                      ++ (be.write_u16 opcode
                          ++ (be.write_u32 (length ps % 2 ^ 16) ++ write_params be ps))));
          writes = [];
        },
      )
  unfolding send_command command_packet command_bytes new_command header_of_packet to_bytes
      message_code
  send_command_lem opcode transaction_id ps config w h = rw (parse_params-write_params ps h) (
      send_packet_with_retry_lem be (command_packet be opcode transaction_id ps) config [] w
        (omega arith)
      ∙ moved w refl (omega arith))
