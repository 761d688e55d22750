-- ===== src/Commands/Client/Dialing.antt =====
-- src/commands.rs: `CameraClient::connect`, with the connection that it opens and the thread that it
-- starts.
use pipop_core.Base.{
  suc, ap, ℕ, Text, ◌+◌, ◌^◌, ◌<◌, ◌≡◌, ◌++◌, ◌∷◌, [], List, Bytes, inr, none, ok, length, refl,
  true,
}
use pipop_core.External.{BigEndian, Random}
use pipop_core.Commands.Listener.{listen, proceed}
use pipop_core.Commands.Listener.Rivals.{listen_turn-response}
use pipop_core.Types.{PtpEvent, SessionConfig, PtpOperationCode}
use pipop_core.Net.{Wire, Arrival, pure, ◌>>=◌, ◌>>◌, generate_transaction_id}
use pipop_core.Net.Reading.{fed}
use pipop_core.Net.Dialing.{Tcp, Dialed, opened, option, on_dial}
use pipop_core.Net.Dialing.Quiet.{
  FailsQuietly, on_dial-FailsQuietly, bind-IsQuiet, zero_timeout-IsQuiet,
}
use pipop_core.Transport.Options.{configure_stream}
use pipop_core.Transport.Send.Packets.{writing}
use pipop_core.Commands.Client.{CameraClient, connect, close}
use pipop_core.Commands.Client.Objects.{one_param}
use pipop_core.Commands.Client.Answers.{
  success_header, success_header-ok, response_bytes, after_exchange, exchange_answered,
}

-- What `connect` leaves: the client, and the thread that waits for events with this configuration, on
-- a copy of the client's stream.
pub record Connected : Type 0 where
  pub client : CameraClient
  pub event_config : SessionConfig

unfoldable pub connect_to : Tcp → BigEndian → Random → Text → ℕ → SessionConfig → Dialed Connected
connect_to tcp be rng ip port config = on_dial (tcp.dial ip port) do
  configure_stream tcp config
  client ← connect be rng config
  option tcp.try_clone
  pure (record { client = client; event_config = config })

-- So many rounds of the thread, while the client holds the receiving end of the channel: the events
-- that it sends, and the stream that the client reads from.
unfoldable pub rounds_of : BigEndian → Connected → ℕ → Wire → List PtpEvent × Wire
rounds_of be c rounds w = listen be rounds true c.event_config [] w

module _ (tcp : Tcp) (be : BigEndian) (rng : Random) (ip : Text) (port : ℕ)
    (config : SessionConfig) where
  -- With a timeout of zero `connect` fails on every network, and sends nothing.
  pub connect_to_zero_timeout :
      config.timeout ≡ 0 → FailsQuietly (tcp.dial ip port) (connect_to tcp be rng ip port config)
  unfolding connect_to configure_stream
  connect_to_zero_timeout z =
      on_dial-FailsQuietly (tcp.dial ip port) _
        (bind-IsQuiet _ _ (bind-IsQuiet _ _ (zero_timeout-IsQuiet tcp config.timeout z)))

  -- The options of the stream are accepted, and so is its copy for the listener.
  pub record AreAccepted : Type 0 where
    pub read_timeout : tcp.set_read_timeout config.timeout ≡ none
    pub write_timeout : tcp.set_write_timeout config.timeout ≡ none
    pub nodelay : tcp.set_nodelay true ≡ none
    pub clone : tcp.try_clone ≡ none

module _ (be : BigEndian) (rng : Random) where
  connect_answered :
      (config : SessionConfig) (r v u a b c d : ℕ) (tail : Bytes) (rest : List Arrival) (w : Wire)
      → r < 2 ^ 16
      → length (success_header v u a b c d ++ tail) + 4 < 2 ^ 32
      → connect be rng config (
          fed (writing w []) (
            response_bytes be r (rng.draw (w.drawn + 1)) (success_header v u a b c d ++ tail) rest))
        ≡ (
          ok (record { session_id = rng.draw w.drawn; config = config }),
          after_exchange be rng PtpOperationCode.open_session
              (rng.draw w.drawn ∷ [])
              rest
              (record w { drawn = w.drawn + 1 }),
        )
  unfolding connect generate_transaction_id
  connect_answered config r v u a b c d tail rest w hr hl =
      rw
        (
          one_param be (rng.draw w.drawn),
          exchange_answered be rng PtpOperationCode.open_session (rng.draw w.drawn ∷ []) r
              (success_header v u a b c d ++ tail) rest config (record w { drawn = w.drawn + 1 })
              (rng.draw_lt w.drawn, tt) hr hl
              (success_header-ok (rng.draw (w.drawn + 1)) v u a b c d tail),
        )
        refl

  close_answered :
      (client : CameraClient) (r v u a b c d : ℕ) (tail : Bytes) (rest : List Arrival) (w : Wire)
      → client.session_id < 2 ^ 32
      → r < 2 ^ 16
      → length (success_header v u a b c d ++ tail) + 4 < 2 ^ 32
      → close be rng client (
          fed
            (writing w [])
            (response_bytes be r (rng.draw w.drawn) (success_header v u a b c d ++ tail) rest))
        ≡ (
          ok tt,
          after_exchange be rng PtpOperationCode.close_session (client.session_id ∷ []) rest w,
        )
  unfolding close
  close_answered client r v u a b c d tail rest w hs hr hl =
      rw
        (
          one_param be client.session_id,
          exchange_answered be rng PtpOperationCode.close_session (client.session_id ∷ []) r
              (success_header v u a b c d ++ tail) rest client.config w (hs, tt) hr hl
              (success_header-ok (rng.draw w.drawn) v u a b c d tail),
        )
        refl

  -- The bytes of two successful answers: to the second draw from `w` on, and to the third.
  abbrev pub two_answers : ℕ → Bytes → ℕ → Bytes → List Arrival → Wire → List Arrival
  two_answers r body r' body' rest w =
      response_bytes be r (rng.draw (w.drawn + 1)) body
        (response_bytes be r' (rng.draw (w.drawn + 1 + 1)) body' rest)

  -- The rounds of the listener take a response away: behind it, all is as if it had not come.
  rounds_of-response :
      (c : Connected) (rounds r i : ℕ) (body : Bytes) (rest : List Arrival) (w : Wire)
      → r < 2 ^ 16
      → i < 2 ^ 32
      → length body + 4 < 2 ^ 32
      → rounds_of be c (suc rounds) (fed w (response_bytes be r i body rest))
        ≡ rounds_of be c (suc rounds) (fed w rest)
  unfolding rounds_of listen
  rounds_of-response c rounds r i body rest w hr hi hl =
      ap (λ p. proceed p.0 (λ es. listen be rounds true c.event_config es p.1) [] p.1)
        (listen_turn-response be true c.event_config r i body rest w hr hi hl)

  -- The camera accepts the session and, later, its end, each by a response that reports success, and
  -- the options of the stream are accepted. Then `connect` sends the command that opens the session
  -- of a number that was drawn, and leaves a client with that number and a listener. If the listener
  -- makes no round until `close` has its answer, `close` succeeds, after sending the command that
  -- closes the session of the same number. If it makes one or more, with the answer to `close` in the stream already, then
  -- `close` does what it does where this answer never comes. No write fails, and the fields of the
  -- answers fit their widths.
  pub connect_to-close :
      (tcp : Tcp) (ip : Text) (port : ℕ) (config : SessionConfig)
      (r r' v u a b c d v' u' a' b' c' d' : ℕ) (tail tail' : Bytes) (rest : List Arrival) (w : Wire)
      → AreAccepted tcp be rng ip port config
      → r < 2 ^ 16
      → r' < 2 ^ 16
      → length (success_header v u a b c d ++ tail) + 4 < 2 ^ 32
      → length (success_header v' u' a' b' c' d' ++ tail') + 4 < 2 ^ 32
      → tcp.dial ip port
        ≡ inr (
            fed (writing w []) (
              two_answers r
                (success_header v u a b c d ++ tail)
                r'
                (success_header v' u' a' b' c' d' ++ tail')
                rest
                w))
      → (connected : Connected) × (w' : Wire) × (connect_to tcp be rng ip port config
          ≡ opened (ok connected) w')
        × (connected.client.session_id ≡ rng.draw w.drawn)
        × (close be rng connected.client w' ≡ (
          ok tt,
          after_exchange be rng PtpOperationCode.close_session
              (connected.client.session_id ∷ [])
              rest
              (after_exchange be rng PtpOperationCode.open_session
                (connected.client.session_id ∷ [])
                rest
                (record w { drawn = w.drawn + 1 })),
        ))
        × ((rounds : ℕ)
            → close be rng connected.client (rounds_of be connected (suc rounds) w').1
              ≡ close be rng connected.client
                  (rounds_of be connected (suc rounds) (
                    after_exchange be rng PtpOperationCode.open_session
                      (connected.client.session_id ∷ [])
                      rest
                      (record w { drawn = w.drawn + 1 }))).1)
  unfolding connect_to configure_stream
  connect_to-close tcp ip port config r r' v u a b c d v' u' a' b' c' d' tail tail' rest w ok_ hr
        hr' hl hl' hd =
      let client : CameraClient = record { session_id = rng.draw w.drawn; config = config } in
      let connected : Connected = record { client = client; event_config = config } in
      let later =
        response_bytes be r' (rng.draw (w.drawn + 1 + 1))
          (success_header v' u' a' b' c' d' ++ tail') rest in
      let w' =
        after_exchange be rng PtpOperationCode.open_session (rng.draw w.drawn ∷ []) later
          (record w { drawn = w.drawn + 1 }) in
      (
        connected,
        w',
        rw
            (
              hd,
              ok_.read_timeout,
              ok_.write_timeout,
              ok_.nodelay,
              connect_answered config r v u a b c d tail later w hr hl,
              ok_.clone,
            )
            refl,
        refl,
        close_answered client r' v' u' a' b' c' d' tail' rest (record w' { incoming = rest })
            (rng.draw_lt w.drawn) hr' hl',
        λ rounds.
            ap (λ p. close be rng client p.1)
              (rounds_of-response connected rounds r' (rng.draw (w.drawn + 1 + 1))
                (success_header v' u' a' b' c' d' ++ tail') rest (record w' { incoming = rest }) hr'
                (rng.draw_lt (w.drawn + 1 + 1)) hl'),
      )
