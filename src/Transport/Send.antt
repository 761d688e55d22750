-- ===== src/Transport/Send.antt =====
-- src/transport.rs: sending a packet, with retries.
pub mod Packets
pub mod Retries
pub mod Progress
use pipop_core.Base.{
  ℕ, zero, suc, ◌+◌, ◌%◌, ◌^◌, List, [], ◌∷◌, ◌++◌, Bytes, Text, ok, err, stuck, Result, length,
  ltb, if◌then◌else◌, text, decimal, Bool, true, false,
}
use pipop_core.Error.{PtpIpError, other, display}
use pipop_core.External.{BigEndian}
use pipop_core.Types.{PtpIpPacket, SessionConfig, message_code}
use pipop_core.Net.{
  Wire, Net, pure, fail, out_of_fuel, ◌>>=◌, ◌>>◌, question, or_else, sleep, write_all, flush,
}
use pipop_core.Transport.Header.{PtpIpHeader, to_bytes}

-- `is_empty`
abbrev pub is_empty : Bytes → Bool
is_empty [] = true
is_empty (_ ∷ _) = false

unfoldable pub header_of_packet : PtpIpPacket → PtpIpHeader
header_of_packet packet = record {
  message_type = message_code packet.message_type;
  reserved = 0;
  transaction_id = packet.transaction_id;
  payload_length = length packet.payload % 2 ^ 32;
}

-- The message of the last error.
unfoldable pub retries_message : ℕ → PtpIpError → Text
retries_message max_retries e =
    text "Failed to send packet after " ++ (decimal max_retries ++ (text " retries: " ++ display e))

module _ (be : BigEndian) where
  unfoldable pub send_packet : PtpIpPacket → Net PtpIpError (Unit {0})
  send_packet packet = do
    question (write_all (to_bytes be (header_of_packet packet)))
    if is_empty packet.payload then pure tt else question (write_all packet.payload)
    question flush

  -- The loop of `send_packet_with_retry`. It is run with a round for each of the attempts.
  unfoldable pub send_loop : ℕ → ℕ → PtpIpPacket → SessionConfig → Net PtpIpError (Unit {0})
  send_loop zero retries packet config = out_of_fuel
  send_loop (suc fuel) retries packet config =
      let again = sleep config.retry_delay_ms >> send_loop fuel (retries + 1) packet config in
      or_else (send_packet packet) λ e.
        if ltb config.max_retries (retries + 1)
        then fail (other (retries_message config.max_retries e))
        else again

  unfoldable pub send_packet_with_retry : PtpIpPacket → SessionConfig → Net PtpIpError (Unit {0})
  send_packet_with_retry packet config = send_loop (config.max_retries + 1) 0 packet config
