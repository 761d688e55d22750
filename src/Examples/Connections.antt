-- ===== src/Examples/Connections.antt =====
-- Connections that open, and two readers of one socket.
use pipop_core.Base.{
  ℕ, suc, ◌≡◌, refl, true, none, some, inr, [], ◌∷◌, ◌++◌, ok, ◌==◌, if◌then◌else◌, arith,
}
use pipop_core.Io.{IoError, invalid_input}
use pipop_core.Types.{SessionConfig, PtpOperationCode, default_session_config}
use pipop_core.Net.{Wire}
use pipop_core.Net.Reading.{fed}
use pipop_core.Net.Dialing.{Tcp, opened}
use pipop_core.Net.Dialing.Quiet.{FailsQuietly}
use pipop_core.Transport.Send.Packets.{writing}
use pipop_core.Commands.Response.{get_response}
use pipop_core.Commands.Listener.{listen_turn}
use pipop_core.Commands.Listener.Rivals.{get_response-listen_turn}
use pipop_core.Commands.Client.{close}
use pipop_core.Commands.Client.Answers.{
  response_packet, response_bytes, success_header, success_header-ok, after_exchange,
}
use pipop_core.Commands.Client.Dialing.{
  Connected, rounds_of, connect_to, AreAccepted, two_answers, connect_to_zero_timeout,
  connect_to-close,
}
use pipop_core.Session.Dialing
use pipop_core.Session.Dialing.{connect_to-FailsQuietly}
use pipop_core.Examples.Data.{network_order, counting, quiet}

abbrev refused : IoError
refused = record { kind = invalid_input; message = [] }

-- A network where each address answers with the same bytes.
abbrev reaching : Wire → Tcp
reaching w = record {
  dial = λ ip port. inr w;
  set_read_timeout = λ t. if t == 0 then some refused else none;
  set_write_timeout = λ t. if t == 0 then some refused else none;
  set_nodelay = λ b. none;
  try_clone = none;
  zero_refused = (refused, refl, refl);
}

abbrev pub reachable : Tcp
reachable = reaching quiet

abbrev hasty : SessionConfig
hasty = record default_session_config { timeout = 0 }

connect_to_zero_timeout_example :
    FailsQuietly (inr quiet) (connect_to reachable network_order counting [] 15740 hasty)
connect_to_zero_timeout_example =
    connect_to_zero_timeout reachable network_order counting [] 15740 hasty refl

abbrev willing : Wire
willing = fed (writing quiet []) (
    two_answers network_order counting 0 (success_header 0 0 0 0 0 8 ++ []) 0
      (success_header 0 0 0 0 0 9 ++ []) [] quiet)

accepted : AreAccepted (reaching willing) network_order counting [] 15740 default_session_config
accepted = record { read_timeout = refl; write_timeout = refl; nodelay = refl; clone = refl }

connect_to-close_example :
    (connected : Connected) × (w' : Wire) × (connect_to
        (reaching willing)
        network_order
        counting
        []
        15740
        default_session_config
      ≡ opened (ok connected) w')
    × (connected.client.session_id ≡ 7)
    × (close network_order counting connected.client w' ≡ (
      ok tt,
      after_exchange network_order counting PtpOperationCode.close_session
          (connected.client.session_id ∷ [])
          []
          (after_exchange network_order counting PtpOperationCode.open_session
            (connected.client.session_id ∷ [])
            []
            (record quiet { drawn = 1 })),
    ))
    × ((rounds : ℕ)
        → close network_order counting connected.client
            (rounds_of network_order connected (suc rounds) w').1
          ≡ close network_order counting connected.client
              (rounds_of network_order connected (suc rounds) (
                after_exchange network_order counting PtpOperationCode.open_session
                  (connected.client.session_id ∷ [])
                  []
                  (record quiet { drawn = 1 }))).1)
connect_to-close_example =
    connect_to-close network_order counting (reaching willing) [] 15740 default_session_config 0 0 0
      0 0 0 0 8 0 0 0 0 0 9 [] [] [] quiet accepted (omega arith) (omega arith) (omega arith)
      (omega arith) refl

abbrev success : Wire
success = fed quiet (response_bytes network_order 0 7 (success_header 0 0 0 0 0 7) [])

get_response-listen_turn_example :
    (get_response network_order 7 default_session_config success
      ≡ (ok (response_packet 7 (success_header 0 0 0 0 0 7)), fed quiet []))
    × (get_response network_order 7 default_session_config
          (listen_turn network_order true default_session_config success).1
        ≡ get_response network_order 7 default_session_config
            (listen_turn network_order true default_session_config (fed quiet [])).1)
get_response-listen_turn_example =
    get_response-listen_turn network_order true default_session_config 0 7
      (success_header 0 0 0 0 0 7) [] quiet (omega arith) (omega arith) (omega arith)
      (success_header-ok 7 0 0 0 0 0 7 [])

connect_to-FailsQuietly_example :
    FailsQuietly
      (inr quiet)
      (Dialing.connect_to reachable network_order counting [] 15740 default_session_config)
connect_to-FailsQuietly_example =
    connect_to-FailsQuietly reachable network_order counting [] 15740 default_session_config
      (omega arith)
