-- ===== src/Commands/Response/Foreign.antt =====
-- src/commands.rs: `get_response` goes past responses to other transactions, and waits anew.
use pipop_core.Base.{
  ℕ, zero, suc, ◌+◌, ◌*◌, ◌^◌, ◌<◌, ◌≡◌, ◌≢◌, ◌∙◌, refl, ap, some, true, false, ltb, ge→ltb, ◌-◌,
  List, ◌∷◌, Bytes, ok, length, ◌==◌, ==_ne, arith,
}
use mathlib.Core.Path.{subst}
use pipop_core.External.{BigEndian}
use pipop_core.Types.{PtpIpPacket, SessionConfig, response_block, same_type, message_code}
use pipop_core.Net.{Wire, Arrival, pause, read_exact, recv_bytes}
use pipop_core.Net.Rules.{Used}
use pipop_core.Net.Reading.{fed}
use pipop_core.Transport.Receive.{recv_packet, recv_packet_filtered, filter_loop, is_expected}
use pipop_core.Transport.Receive.RoundTrip.{recv_packet-response}
use pipop_core.Transport.Receive.Progress.{Advances-recv_packet_filtered}
use pipop_core.Transport.Receive.Skipped.{continue-same, if-same}
use pipop_core.Commands.Response.{response_loop, get_response}
use pipop_core.Commands.Client.Answers.{response_packet, response_bytes}

module _ (be : BigEndian) where
  module _ (expected_id : ℕ) (config : SessionConfig) where
    -- More fuel than there is input changes nothing.
    response_loop-fuel :
        (f g : ℕ) (w : Wire)
        → length w.incoming < f
        → length w.incoming < g
        → response_loop be f expected_id config w ≡ response_loop be g expected_id config w
    unfolding response_loop
    response_loop-fuel zero g w h k = absurd (omega arith)
    response_loop-fuel (suc f) zero w h k = absurd (omega arith)
    response_loop-fuel (suc f) (suc g) w h k =
        continue-same w (recv_packet_filtered be (some response_block) config w) _ _
          ((Advances-recv_packet_filtered be (some response_block) config).at w)
          λ packet w' l.
            if-same (packet.transaction_id == expected_id) _ _ _ w'
              (response_loop-fuel f g w' (omega arith) (omega arith))

    -- Behind a response to another transaction, it is as if it had not come.
    get_response-skip :
        (packet : PtpIpPacket) (w w' : Wire)
        → recv_packet_filtered be (some response_block) config w ≡ (ok packet, w')
        → (packet.transaction_id == expected_id) ≡ false
        → get_response be expected_id config w ≡ get_response be expected_id config w'
    unfolding get_response response_loop
    get_response-skip packet w w' e n =
        let l : length w'.incoming < length w.incoming =
          subst (λ p. Used w p) e
            ((Advances-recv_packet_filtered be (some response_block) config).at w) in
        rw (e, n)
          (response_loop-fuel (length w.incoming) (suc (length w'.incoming)) w' l (omega arith))

  -- Where a pause is in front of a packet, it comes that much later.
  recv_packet-pause :
      (d : ℕ) (rest : List Arrival) (w : Wire)
      → recv_packet be (fed w (pause d ∷ rest))
        ≡ recv_packet be (record w { incoming = rest; clock = w.clock + d })
  unfolding recv_packet read_exact recv_bytes
  recv_packet-pause d rest w = refl

  -- So many responses to one transaction, each behind a pause of `d` milliseconds.
  abbrev pub responses : ℕ → ℕ → ℕ → ℕ → Bytes → List Arrival → List Arrival
  responses zero d r i body rest = rest
  responses (suc n) d r i body rest =
      pause d ∷ response_bytes be r i body (responses n d r i body rest)

  later_response :
      (d r i : ℕ) (body : Bytes) (rest : List Arrival) (config : SessionConfig) (w : Wire)
      → r < 2 ^ 16
      → i < 2 ^ 32
      → length body + 4 < 2 ^ 32
      → recv_packet_filtered be
          (some response_block)
          config
          (fed w (pause d ∷ response_bytes be r i body rest))
        ≡ (ok (response_packet i body), record w { incoming = rest; clock = w.clock + d })
  unfolding recv_packet_filtered filter_loop
  later_response d r i body rest config w hr hi hl =
      let in_time : ltb (config.timeout * 1000) (w.clock - w.clock) ≡ false =
        ge→ltb _ _ (omega arith) in
      let fits : is_expected (some response_block) response_block ≡ true =
        unfold is_expected same_type message_code in refl in
      rw (
        in_time,
        recv_packet-pause d (response_bytes be r i body rest) w,
        recv_packet-response be r i body rest (record w { clock = w.clock + d }) hr hi hl,
        fits,
      )

  -- However many responses to another transaction come, each `d` milliseconds behind the last one,
  -- `get_response` goes past all of them, whatever the timeout is, and does then what it does where
  -- it begins behind them, that many times `d` milliseconds later. The fields of the responses fit
  -- their widths.
  pub get_response-responses :
      (n d r i expected_id : ℕ) (body : Bytes) (rest : List Arrival) (config : SessionConfig)
      (w : Wire)
      → r < 2 ^ 16
      → i < 2 ^ 32
      → length body + 4 < 2 ^ 32
      → i ≢ expected_id
      → get_response be expected_id config (fed w (responses n d r i body rest))
        ≡ get_response be expected_id config (record w { incoming = rest; clock = w.clock + n * d })
  get_response-responses zero d r i expected_id body rest config w hr hi hl ne =
      ap (λ t. get_response be expected_id config (record w { incoming = rest; clock = t }))
        (omega arith)
  get_response-responses (suc n) d r i expected_id body rest config w hr hi hl ne =
      get_response-skip expected_id config (response_packet i body) _
        (record w { incoming = responses n d r i body rest; clock = w.clock + d })
        (later_response d r i body (responses n d r i body rest) config w hr hi hl)
        (==_ne i expected_id ne)
      ∙ get_response-responses n d r i expected_id body rest config
          (record w { clock = w.clock + d }) hr hi hl ne
      ∙ ap (λ t. get_response be expected_id config (record w { incoming = rest; clock = t }))
          (omega arith)
