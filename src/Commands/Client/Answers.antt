-- ===== src/Commands/Client/Answers.antt =====
-- src/commands.rs: an operation of `CameraClient` when the camera answers it.
use pipop_core.Base.{
  ℕ, ◌+◌, ◌-◌, ◌*◌, ◌%◌, ◌^◌, ◌<◌, ◌≡◌, refl, some, List, [], ◌∷◌, ◌++◌, Bytes, ok, length, ltb,
  ge→ltb, ==_refl, All, true, false, arith,
}
use pipop_core.External.{BigEndian, Random}
use pipop_core.Types.{
  PtpIpPacket, SessionConfig, PtpOperationCode, operation_code, response_block, same_type,
  message_code,
}
use pipop_core.Net.{Wire, Arrival, generate_transaction_id}
use pipop_core.Net.Reading.{arriving, fed}
use pipop_core.Transport.Header.RoundTrip.{front_bytes}
use pipop_core.Transport.Receive.{recv_packet_filtered, filter_loop, is_expected}
use pipop_core.Transport.Receive.RoundTrip.{recv_packet-response}
use pipop_core.Transport.Send.Packets.{writing}
use pipop_core.Commands.Request.{write_params}
use pipop_core.Commands.Request.Laws.{send_command_lem}
use pipop_core.Commands.Response.{
  response_code, check_code, check_response_error, response_loop, get_response,
}
use pipop_core.Commands.Parsing.Handles.{put_list, parse_handles-put_list}
use pipop_core.Transport.Infos.{get_u16}
use pipop_core.Utils.{read_u16_be, u16_of}
use pipop_core.Io.{read_exact}
use pipop_core.Commands.Client.{CameraClient, exchange, get_storage_ids}

abbrev pub response_packet : ℕ → Bytes → PtpIpPacket
response_packet i body = record {
  message_type = response_block;
  transaction_id = i;
  payload = body;
}

-- The first eight bytes of an answer that reports success.
abbrev pub success_header : ℕ → ℕ → ℕ → ℕ → ℕ → ℕ → Bytes
success_header v u a b c d = v ∷ u ∷ 0x20 ∷ 0x01 ∷ a ∷ b ∷ c ∷ d ∷ []

pub success_header-ok :
    (i v u a b c d : ℕ) (tail : Bytes)
    → check_response_error (response_packet i (success_header v u a b c d ++ tail)) ≡ ok tt
unfolding check_response_error response_code check_code get_u16 read_u16_be read_exact u16_of
    operation_code
success_header-ok i v u a b c d tail =
    let long : ltb (length (success_header v u a b c d ++ tail)) 8 ≡ false =
      ge→ltb _ _ (omega arith) in
    rw long refl

module _ (be : BigEndian) where
  -- The bytes of a response, with the length that counts itself.
  abbrev pub response_bytes : ℕ → ℕ → Bytes → List Arrival → List Arrival
  response_bytes r i body rest =
      arriving (front_bytes be 5 r i)
        (arriving (be.write_u32 (length body + 4)) (arriving body rest))

  filtered-response :
      (r i : ℕ) (body : Bytes) (rest : List Arrival) (config : SessionConfig) (w : Wire)
      → r < 2 ^ 16
      → i < 2 ^ 32
      → length body + 4 < 2 ^ 32
      → recv_packet_filtered be (some response_block) config (fed w (response_bytes r i body rest))
        ≡ (ok (response_packet i body), fed w rest)
  unfolding recv_packet_filtered filter_loop
  filtered-response r i body rest config w hr hi hl =
      let in_time : ltb (config.timeout * 1000) (w.clock - w.clock) ≡ false =
        ge→ltb _ _ (omega arith) in
      let fits : is_expected (some response_block) response_block ≡ true =
        unfold is_expected same_type message_code in refl in
      rw (in_time, recv_packet-response be r i body rest w hr hi hl, fits)

  -- A successful response in front of the stream is what `get_response` returns.
  pub get_response-response :
      (r i : ℕ) (body : Bytes) (rest : List Arrival) (config : SessionConfig) (w : Wire)
      → r < 2 ^ 16
      → i < 2 ^ 32
      → length body + 4 < 2 ^ 32
      → check_response_error (response_packet i body) ≡ ok tt
      → get_response be i config (fed w (response_bytes r i body rest))
        ≡ (ok (response_packet i body), fed w rest)
  unfolding get_response response_loop
  get_response-response r i body rest config w hr hi hl hc =
      rw (filtered-response r i body rest config w hr hi hl, ==_refl i, hc)

  module _ (rng : Random) where
    -- The command for the transaction `i`, as `send_command` puts it on the wire.
    abbrev pub command_on_wire : PtpOperationCode → ℕ → List ℕ → Bytes
    command_on_wire operation i ps =
        front_bytes be 3 0 i
        ++ (be.write_u16 0
            ++ (be.write_u16 (operation_code operation)
                ++ (be.write_u32 (length ps % 2 ^ 16) ++ write_params be ps)))

    -- What an operation leaves behind: its command is sent, and one number was drawn.
    abbrev pub after_exchange : PtpOperationCode → List ℕ → List Arrival → Wire → Wire
    after_exchange operation ps rest w = record w {
      incoming = rest;
      outgoing = w.outgoing ++ command_on_wire operation (rng.draw w.drawn) ps;
      writes = [];
      drawn = w.drawn + 1;
    }

    -- A camera that answers the drawn transaction with a success: `exchange` sends the command and
    -- returns the answer. The parameters have 32 bits, and no write fails.
    pub exchange_answered :
        (operation : PtpOperationCode) (ps : List ℕ) (r : ℕ) (body : Bytes) (rest : List Arrival)
        (config : SessionConfig) (w : Wire)
        → All (λ p. p < 2 ^ 32) ps
        → r < 2 ^ 16
        → length body + 4 < 2 ^ 32
        → check_response_error (response_packet (rng.draw w.drawn) body) ≡ ok tt
        → exchange be rng operation
            (write_params be ps)
            config
            (fed (writing w []) (response_bytes r (rng.draw w.drawn) body rest))
          ≡ (ok (response_packet (rng.draw w.drawn) body), after_exchange operation ps rest w)
    unfolding exchange generate_transaction_id
    exchange_answered operation ps r body rest config w ha hr hl hc =
        let i = rng.draw w.drawn in
        let drawn = record w { drawn = w.drawn + 1 } in
        rw (
          send_command_lem be (operation_code operation) i ps config
              (fed drawn (response_bytes r i body rest)) ha,
          get_response-response r i body rest config
              (record drawn {
                outgoing = w.outgoing ++ command_on_wire operation i ps;
                writes = [];
              })
              hr (rng.draw_lt w.drawn) hl hc,
        )

    -- A camera that answers the drawn transaction with a list of storages, behind a header that
    -- reports success: `get_storage_ids` sends its command and returns the list. The numbers fit
    -- their widths, and no write fails.
    pub get_storage_ids_answered :
        (client : CameraClient) (r v u a b c d : ℕ) (xs : List ℕ) (tail : Bytes)
        (rest : List Arrival) (w : Wire)
        → r < 2 ^ 16
        → length xs < 2 ^ 32
        → All (λ x. x < 2 ^ 32) xs
        → length (success_header v u a b c d ++ put_list xs tail) + 4 < 2 ^ 32
        → get_storage_ids be rng client (
            fed (writing w []) (
              response_bytes r
                (rng.draw w.drawn)
                (success_header v u a b c d ++ put_list xs tail)
                rest))
          ≡ (ok xs, after_exchange PtpOperationCode.get_storage_ids [] rest w)
    unfolding get_storage_ids write_params
    get_storage_ids_answered client r v u a b c d xs tail rest w hr hx ha hl =
        let body = success_header v u a b c d ++ put_list xs tail in
        let e =
          exchange_answered PtpOperationCode.get_storage_ids [] r body rest client.config w tt hr hl
            (success_header-ok (rng.draw w.drawn) v u a b c d (put_list xs tail)) in
        rw (e, (parse_handles-put_list (success_header v u a b c d) xs tail refl hx ha).0)
