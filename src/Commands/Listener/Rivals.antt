-- ===== src/Commands/Listener/Rivals.antt =====
-- src/commands.rs: the listener and the client read from one socket, since the stream of the one is
-- a copy of the other's.
use pipop_core.Base.{ℕ, ◌+◌, ◌^◌, ◌<◌, ◌≡◌, refl, ap, Bool, false, some, List, Bytes, ok, length}
use pipop_core.External.{BigEndian}
use pipop_core.Types.{SessionConfig, response_block, event_block, same_type, message_code}
use pipop_core.Net.{Wire, Arrival}
use pipop_core.Net.Reading.{fed}
use pipop_core.Transport.Receive.{is_expected}
use pipop_core.Transport.Receive.RoundTrip.{recv_packet-response}
use pipop_core.Transport.Receive.Skipped.{recv_packet_filtered-skip}
use pipop_core.Commands.Response.{check_response_error, get_response}
use pipop_core.Commands.Client.Answers.{response_packet, response_bytes, get_response-response}
use pipop_core.Commands.Listener.{turn_of, listen_turn}

module _ (be : BigEndian) where
  pub listen_turn-response :
      (alive : Bool) (config : SessionConfig) (r i : ℕ) (body : Bytes) (rest : List Arrival)
      (w : Wire)
      → r < 2 ^ 16
      → i < 2 ^ 32
      → length body + 4 < 2 ^ 32
      → listen_turn be alive config (fed w (response_bytes be r i body rest))
        ≡ listen_turn be alive config (fed w rest)
  unfolding listen_turn
  listen_turn-response alive config r i body rest w hr hi hl =
      let other : is_expected (some event_block) response_block ≡ false =
        unfold is_expected same_type message_code in refl in
      ap (λ p. (turn_of alive p.0, p.1))
        (recv_packet_filtered-skip be (some event_block) config (response_packet i body) _
          (fed w rest) (recv_packet-response be r i body rest w hr hi hl) other refl)

  -- A successful answer to the transaction `i` waits in the socket. If the client is the first to
  -- read, `get_response` returns it. If the listener is, its turn goes on behind the answer, and what
  -- the client then gets is what it gets where the camera has not answered. The fields of the answer
  -- fit their widths.
  pub get_response-listen_turn :
      (alive : Bool) (config : SessionConfig) (r i : ℕ) (body : Bytes) (rest : List Arrival)
      (w : Wire)
      → r < 2 ^ 16
      → i < 2 ^ 32
      → length body + 4 < 2 ^ 32
      → check_response_error (response_packet i body) ≡ ok tt
      → (get_response be i config (fed w (response_bytes be r i body rest))
          ≡ (ok (response_packet i body), fed w rest))
        × (get_response be i config
              (listen_turn be alive config (fed w (response_bytes be r i body rest))).1
            ≡ get_response be i config (listen_turn be alive config (fed w rest)).1)
  get_response-listen_turn alive config r i body rest w hr hi hl hc = (
    get_response-response be r i body rest config w hr hi hl hc,
    ap (λ p. get_response be i config p.1)
        (listen_turn-response alive config r i body rest w hr hi hl),
  )
