-- ===== src/Examples/Calls.antt =====
-- Downloads with retries, a heartbeat, and an event.
use pipop_core.Base.{◌≡◌, refl, true, false, some, List, [], ◌∷◌, ok, err, arith}
use pipop_core.Io.{eof_error}
use pipop_core.Error.{from_io}
use pipop_core.Types.{
  PtpIpPacket, PtpOperationCode, operation_code, SessionConfig, event_block, default_session_config,
  default_download_stats, same_type, message_code,
}
use pipop_core.Net.{Wire, read_exact, recv_bytes, generate_transaction_id}
use pipop_core.Net.Reading.{arriving, fed}
use pipop_core.Transport.Header.RoundTrip.{front_bytes}
use pipop_core.Transport.Receive.{recv_packet, recv_packet_filtered, filter_loop, is_expected}
use pipop_core.Transport.Receive.RoundTrip.{recv_packet-event}
use pipop_core.Transport.Send.Packets.{writing}
use pipop_core.Commands.Request.Laws.{send_command_lem}
use pipop_core.Commands.Response.{receive_data_block, data_loop}
use pipop_core.Commands.Response.Blocks.{Block, block_arrivals, blocks_arrivals}
use pipop_core.Commands.Client.Answers.{after_exchange}
use pipop_core.Commands.Download.{get_partial_object, download_with_retry}
use pipop_core.Commands.Download.Chunk.{
  chunk_params, chunk_params-bytes, get_partial_object_answered,
}
use pipop_core.Commands.Download.Retries.{done, retried, download_with_retry_lem}
use pipop_core.Session.{Session, is_idle, check_heartbeat}
use pipop_core.Session.Heartbeat.{check_heartbeat-fresh}
use pipop_core.Examples.Data.{network_order, counting, quiet}

abbrev event : PtpIpPacket
event = record { message_type = event_block; transaction_id = 7; payload = [] }

abbrev with_event : Wire
with_event = fed quiet (arriving (front_bytes network_order 6 0 7) [])

event_received :
    (recv_packet_filtered network_order (some event_block) default_session_config with_event).0
    ≡ ok event
unfolding recv_packet_filtered filter_loop is_expected same_type message_code
event_received = rw (recv_packet-event network_order 0 7 [] quiet (omega arith) (omega arith))

abbrev one_block : List Block
one_block = (7, 1 ∷ 2 ∷ []) ∷ []

abbrev with_block : Wire
with_block =
    fed (writing quiet [])
      (blocks_arrivals network_order one_block (block_arrivals network_order (7, []) []))

chunk_received :
    get_partial_object network_order counting 5 0 2 default_session_config with_block ≡ (
      ok (1 ∷ 2 ∷ []),
      after_exchange network_order counting PtpOperationCode.get_partial_object
          (chunk_params network_order 5 0 2)
          []
          quiet,
    )
chunk_received =
    get_partial_object_answered network_order counting 5 0 2 one_block [] default_session_config
      quiet (omega arith) (omega arith) (omega arith)
      ((omega arith, omega arith, λ e. omega arith), tt)

download_with_retry_lem_example :
    download_with_retry network_order counting 5 0 2 default_session_config default_download_stats
      with_block
    ≡ (
      ok (1 ∷ 2 ∷ []),
      retried 0 default_download_stats,
      after_exchange network_order counting PtpOperationCode.get_partial_object
          (chunk_params network_order 5 0 2)
          []
          quiet,
    )
download_with_retry_lem_example =
    download_with_retry_lem network_order counting 5 0 2 default_session_config (1 ∷ 2 ∷ [])
      default_download_stats done chunk_received (omega arith)

abbrev pub impatient : SessionConfig
impatient = record default_session_config { max_retries = 0 }

-- The stream ends behind the command.
pub chunk_missed :
    get_partial_object network_order counting 5 0 5 impatient (fed (writing quiet []) []) ≡ (
      err (from_io eof_error),
      after_exchange network_order counting PtpOperationCode.get_partial_object
          (chunk_params network_order 5 0 5)
          []
          quiet,
    )
unfolding get_partial_object generate_transaction_id receive_data_block data_loop
    recv_packet_filtered filter_loop recv_packet read_exact recv_bytes
chunk_missed = rw (
  chunk_params-bytes network_order 5 0 5 (omega arith),
  send_command_lem network_order (operation_code PtpOperationCode.get_partial_object) 7
      (chunk_params network_order 5 0 5) impatient (record quiet { drawn = 1 })
      (omega arith, (omega arith, (omega arith, (omega arith, tt)))),
)

abbrev young : Session
young = record {
  config = default_session_config;
  session_id = 3;
  last_activity = 0;
  transaction_id = 1;
  is_connected = true;
}

not_idle : (check_heartbeat network_order counting young quiet).0 ≡ ok tt
unfolding check_heartbeat is_idle
not_idle = refl

check_heartbeat-fresh_example :
    is_idle
      (check_heartbeat network_order counting young quiet).1
      (check_heartbeat network_order counting young quiet).2
    ≡ false
check_heartbeat-fresh_example = check_heartbeat-fresh network_order counting young quiet not_idle
