-- ===== src/Examples/Answers.antt =====
-- Cameras that answer, and some that do not.
use pipop_core.Base.{◌≡◌, ap, true, List, [], ◌∷◌, ◌++◌, Bytes, ok, arith}
use pipop_core.Types.{PtpOperationCode, default_session_config}
use pipop_core.Net.{Wire, byte}
use pipop_core.Net.Reading.{arriving, fed}
use pipop_core.Transport.Header.RoundTrip.{front_bytes}
use pipop_core.Transport.Send.Packets.{writing}
use pipop_core.Commands.Response.{get_response, receive_data_block}
use pipop_core.Commands.Response.Soundness.{IsAnswer, get_response_sound}
use pipop_core.Commands.Response.Foreign.{responses, get_response-responses}
use pipop_core.Commands.Response.Blocks.{
  Block, block_arrivals, blocks_arrivals, receive_data_block-blocks,
}
use pipop_core.Commands.Listener.{listen}
use pipop_core.Commands.Listener.Silence.{listen_silent}
use pipop_core.Commands.Client.{CameraClient, get_storage_ids}
use pipop_core.Commands.Client.Answers.{
  response_packet, response_bytes, success_header, success_header-ok, get_response-response,
  after_exchange, get_storage_ids_answered,
}
use pipop_core.Commands.Parsing.Handles.{put_list}
use pipop_core.Commands.Download.{get_partial_object}
use pipop_core.Commands.Download.Chunk.{chunk_params, get_partial_object_answered}
use pipop_core.Utils.{write_u32_be}
use pipop_core.Commands.Parsing.Events.{put_handles}
use pipop_core.Examples.Data.{network_order, counting, quiet}

abbrev success : Bytes
success = success_header 0 0 0 0 0 7

abbrev answering : Wire
answering = fed quiet (response_bytes network_order 0 7 success [])

-- The response in front of the stream is returned.
answer_returned :
    (get_response network_order 7 default_session_config answering).0
    ≡ ok (response_packet 7 success)
answer_returned =
    ap (λ q. q.0)
      (get_response-response network_order 0 7 success [] default_session_config quiet (omega arith)
        (omega arith) (omega arith) (success_header-ok 7 0 0 0 0 0 7 []))

get_response_sound_example : IsAnswer 7 (response_packet 7 success)
get_response_sound_example =
    get_response_sound network_order 7 default_session_config answering (response_packet 7 success)
      answer_returned

-- Two blocks of the transaction 7, and one of another between them.
abbrev three_blocks : List Block
three_blocks = (7, 1 ∷ 2 ∷ []) ∷ (6, 9 ∷ []) ∷ (7, 3 ∷ []) ∷ []

receive_data_block-blocks_example :
    receive_data_block network_order 7 default_session_config (
      fed quiet
        (blocks_arrivals network_order three_blocks (block_arrivals network_order (7, []) [])))
    ≡ (ok (1 ∷ 2 ∷ 3 ∷ []), fed quiet [])
receive_data_block-blocks_example =
    receive_data_block-blocks network_order 7 default_session_config (omega arith) three_blocks []
      quiet
      (
        (omega arith, omega arith, λ e. omega arith),
        (
          (omega arith, omega arith, λ e. omega arith),
          ((omega arith, omega arith, λ e. omega arith), tt),
        ),
      )

get_partial_object_answered_example :
    get_partial_object network_order counting 5 0x1_0000_0000 3 default_session_config (
      fed
        (writing quiet [])
        (blocks_arrivals network_order three_blocks (block_arrivals network_order (7, []) [])))
    ≡ (
      ok (1 ∷ 2 ∷ 3 ∷ []),
      after_exchange network_order counting PtpOperationCode.get_partial_object
          (chunk_params network_order 5 0x1_0000_0000 3)
          []
          quiet,
    )
get_partial_object_answered_example =
    get_partial_object_answered network_order counting 5 0x1_0000_0000 3 three_blocks []
      default_session_config quiet (omega arith) (omega arith) (omega arith)
      (
        (omega arith, omega arith, λ e. omega arith),
        (
          (omega arith, omega arith, λ e. omega arith),
          ((omega arith, omega arith, λ e. omega arith), tt),
        ),
      )

abbrev client : CameraClient
client = record { session_id = 3; config = default_session_config }

get_storage_ids_answered_example :
    get_storage_ids network_order counting client (
      fed
        (writing quiet [])
        (response_bytes network_order 0 7 (success ++ put_list (0x10001 ∷ []) []) []))
    ≡ (
      ok (0x10001 ∷ []),
      after_exchange network_order counting PtpOperationCode.get_storage_ids [] [] quiet,
    )
unfolding put_list put_handles write_u32_be
get_storage_ids_answered_example =
    get_storage_ids_answered network_order counting client 0 0 0 0 0 0 7 (0x10001 ∷ []) [] [] quiet
      (omega arith) (omega arith) (omega arith, tt) (omega arith)

listen_silent_example :
    (listen network_order 4 true default_session_config []
      (fed quiet (arriving (front_bytes network_order 6 0 7) (byte 0x40 ∷ byte 1 ∷ [])))).0
    ≡ []
listen_silent_example =
    listen_silent network_order true default_session_config 4
      (fed quiet (arriving (front_bytes network_order 6 0 7) (byte 0x40 ∷ byte 1 ∷ [])))

get_response-responses_example :
    get_response network_order 7 default_session_config (
      fed quiet (
        responses network_order 1000 29_000 0 6 success
          (response_bytes network_order 0 7 success [])))
    ≡ get_response network_order 7 default_session_config (record quiet {
      incoming = response_bytes network_order 0 7 success [];
      clock = 29_000_000;
    })
get_response-responses_example =
    get_response-responses network_order 1000 29_000 0 6 7 success
      (response_bytes network_order 0 7 success []) default_session_config quiet (omega arith)
      (omega arith) (omega arith) (λ e. omega (arith, e))
