-- ===== src/Examples/Packets.antt =====
-- Packets that are sent and received.
use pipop_core.Base.{ℕ, ◌%◌, ◌^◌, ◌≡◌, List, [], ◌∷◌, ◌++◌, ok, length, arith}
use pipop_core.Io.{IoError, timed_out}
use pipop_core.Types.{PtpIpPacket, data_block, default_session_config}
use pipop_core.Net.{byte}
use pipop_core.Net.Reading.{arriving, fed}
use pipop_core.Transport.Header.{PtpIpHeader}
use pipop_core.Transport.Header.RoundTrip.{front_bytes, IsHeader}
use pipop_core.Transport.Receive.{recv_packet}
use pipop_core.Transport.Receive.RoundTrip.{recv_packet-send_packet}
use pipop_core.Transport.Send.{send_packet, send_packet_with_retry}
use pipop_core.Transport.Send.Packets.{writing}
use pipop_core.Transport.Send.Retries.{refusals, after_failures, send_packet_with_retry_lem}
use pipop_core.Commands.Request.{send_command, write_params}
use pipop_core.Commands.Request.Laws.{send_command_lem}
use pipop_core.Examples.Data.{network_order, quiet}

abbrev photo : PtpIpPacket
photo = record { message_type = data_block; transaction_id = 7; payload = 1 ∷ 2 ∷ 3 ∷ [] }

abbrev late : IoError
late = record { kind = timed_out; message = [] }

recv_packet-send_packet_example :
    recv_packet network_order
      (fed quiet (arriving (send_packet network_order photo quiet).1.outgoing (byte 9 ∷ [])))
    ≡ (ok photo, fed quiet (byte 9 ∷ []))
recv_packet-send_packet_example =
    recv_packet-send_packet network_order 7 (1 ∷ 2 ∷ 3 ∷ []) (byte 9 ∷ []) quiet quiet (omega arith)
      (omega arith)

abbrev data_header : PtpIpHeader
data_header = record { message_type = 4; reserved = 0; transaction_id = 7; payload_length = 3 }

data_header_fits : IsHeader network_order data_header
data_header_fits = record {
  type_fits = omega arith;
  reserved_fits = omega arith;
  id_fits = omega arith;
  length_fits = omega arith;
}

send_packet_with_retry_lem_example :
    send_packet_with_retry network_order photo default_session_config
      (writing quiet (refusals ((2, late) ∷ []) []))
    ≡ (ok tt, after_failures network_order photo default_session_config ((2, late) ∷ []) quiet)
send_packet_with_retry_lem_example =
    send_packet_with_retry_lem network_order photo default_session_config ((2, late) ∷ []) quiet
      (omega arith)

abbrev three_late : List (ℕ × IoError)
three_late = (0, late) ∷ (0, late) ∷ (1, late) ∷ []

send_command_lem_example :
    send_command network_order 0x1005 7
      (write_params network_order (5 ∷ []))
      default_session_config
      (writing quiet [])
    ≡ (
      ok tt,
      record quiet {
        outgoing =
            front_bytes network_order 3 0 7
            ++ (network_order.write_u16 0
                ++ (network_order.write_u16 0x1005
                    ++ (network_order.write_u32 (length {A = ℕ} (5 ∷ []) % 2 ^ 16)
                        ++ write_params network_order (5 ∷ []))));
      },
    )
send_command_lem_example =
    send_command_lem network_order 0x1005 7 (5 ∷ []) default_session_config quiet (omega arith, tt)
