-- ===== src/Transport/Receive/Progress.antt =====
-- src/transport.rs: every call that receives a packet uses up input, so that the model's loops have
-- fuel enough. The input of a `Wire` is finite.
use pipop_core.Base.{
  ℕ, zero, suc, ◌-◌, ◌*◌, ◌<◌, ◌≢◌, refl, Option, none, some, [], ◌∷◌, and_then-ne-stuck,
  map_err-ne-stuck, Bytes, Result, ok, err, stuck, map_err, length, ltb, arith,
}
use pipop_core.Io.{IoError}
use pipop_core.Io
use pipop_core.Error.{from_io}
use pipop_core.External.{BigEndian}
use pipop_core.Types.{
  PtpIpMessageType, SessionConfig, command_block, data_block, response_block, event_block,
  discovery_request, discovery_response,
}
use pipop_core.Utils.{u16_of}
use pipop_core.Net.{Wire}
use pipop_core.Net.Rules.{
  Used, Ends, Advances, Ends-bind, Advances-bind, Ends-pure, Ends-lift, Advances-question,
  continue-Used_below, Kept-of_Used, Kept-if, Used-if, ending,
}
use pipop_core.Net.Reading.{Ends-read_exact, Advances-read_exact}
use pipop_core.Transport.Header.{
  PtpIpHeader, header_type, cursor_u16, cursor_u32, header_fields, finish, from_stream,
  payload_length,
}
use pipop_core.Transport.Receive.{
  block_type, read_payload, sized_payload, response_payload, payload_of, is_expected, recv_packet,
  filter_loop, recv_packet_filtered,
}

Ends-read_payload : (n : ℕ) → Ends (read_payload n)
unfolding read_payload
Ends-read_payload n = search (ending, Ends-read_exact)

Ends-sized_payload : (o : Option Bytes) → Ends (sized_payload o)
unfolding sized_payload
Ends-sized_payload none = Ends-read_payload 0
Ends-sized_payload (some bs) = search (ending, Ends-read_payload)

Ends-response_payload : (n : ℕ) → Ends (response_payload n)
unfolding response_payload
Ends-response_payload n = search (ending, Ends-read_payload, Ends-read_exact, Ends-sized_payload)

Ends-payload_of : (kind : PtpIpMessageType) (h : PtpIpHeader) → Ends (payload_of kind h)
unfolding payload_of
Ends-payload_of data_block h = Ends-read_payload h.payload_length
Ends-payload_of response_block h = Ends-response_payload h.payload_length
Ends-payload_of command_block h = Ends-read_payload 0
Ends-payload_of event_block h = Ends-read_payload 0
Ends-payload_of discovery_request h = Ends-read_payload 0
Ends-payload_of discovery_response h = Ends-read_payload 0

Ends-payload_length : (n : ℕ) → Ends (payload_length n)
unfolding payload_length
Ends-payload_length n = search (ending, Ends-read_exact)

block_type-ne-stuck : (n : ℕ) → block_type n ≢ stuck
unfolding block_type
block_type-ne-stuck n e = ground arith

pub read_exact-ne-stuck : (n : ℕ) (bs : Bytes) → Io.read_exact n bs ≢ stuck
unfolding Io.read_exact
read_exact-ne-stuck zero bs e = cc
read_exact-ne-stuck (suc n) [] e = cc
read_exact-ne-stuck (suc n) (b ∷ bs) e = ground (arith, read_exact-ne-stuck n bs)

finish-ne-stuck : {E A : Type 0} (r : Result E (A × Bytes)) → r ≢ stuck → finish r ≢ stuck
finish-ne-stuck (ok (a, _)) h = λ p. cc
finish-ne-stuck (err e) h = λ p. cc
finish-ne-stuck stuck h = absurd (h refl)

module _ (be : BigEndian) where
  cursor_u16-ne-stuck : (bs : Bytes) → cursor_u16 be bs ≢ stuck
  unfolding cursor_u16
  cursor_u16-ne-stuck bs = and_then-ne-stuck _ _ (read_exact-ne-stuck 2 bs) (λ r p. cc)

  cursor_u32-ne-stuck : (bs : Bytes) → cursor_u32 be bs ≢ stuck
  unfolding cursor_u32
  cursor_u32-ne-stuck bs = and_then-ne-stuck _ _ (read_exact-ne-stuck 4 bs) (λ r p. cc)

  header_type-ne-stuck : (t : Option ℕ) (bs : Bytes) → header_type be t bs ≢ stuck
  unfolding header_type
  header_type-ne-stuck none bs = cursor_u16-ne-stuck bs
  header_type-ne-stuck (some t) bs = λ p. cc

  header_fields-ne-stuck :
      (t : Option ℕ) (bs : Bytes) → map_err from_io (finish (header_fields be t bs)) ≢ stuck
  unfolding header_fields
  header_fields-ne-stuck t bs = map_err-ne-stuck from_io _ (
      finish-ne-stuck _ (
        and_then-ne-stuck _ _ (header_type-ne-stuck t bs) λ r₁.
          and_then-ne-stuck _ _ (cursor_u16-ne-stuck r₁.1)
            λ r₂. and_then-ne-stuck _ _ (cursor_u32-ne-stuck r₂.1) λ r₃ p. cc))

  Ends-from_stream : (t : Option ℕ) → Ends (from_stream be t)
  unfolding from_stream
  Ends-from_stream t =
      search (ending, Ends-read_exact, Ends-lift, header_fields-ne-stuck, Ends-payload_length)

  pub Advances-recv_packet : Advances (recv_packet be)
  unfolding recv_packet
  Advances-recv_packet = Advances-bind _ _ (Advances-question _ (Advances-read_exact 1)) λ bs.
      Ends-bind _ _ (Ends-from_stream (some (u16_of bs))) λ header.
        Ends-bind _ _ (Ends-lift _ (block_type-ne-stuck header.message_type))
          λ kind. Ends-bind _ _ (Ends-payload_of kind header) λ payload. Ends-pure _

  filter_loop-Used :
      (fuel start : ℕ) (expected : Option PtpIpMessageType) (config : SessionConfig) (w : Wire)
      → length w.incoming < fuel
      → Used w (filter_loop be fuel start expected config w)
  unfolding filter_loop
  filter_loop-Used zero start expected config w h = absurd (omega arith)
  filter_loop-Used (suc fuel) start expected config w h =
      Used-if (ltb (config.timeout * 1000) (w.clock - start)) _ _ w (omega arith) (
        continue-Used_below w (recv_packet be w) _ (Advances-recv_packet.at w) λ packet w' l.
          Kept-if (is_expected expected packet.message_type) _ _ w' (omega arith)
            (Kept-of_Used w' _ (filter_loop-Used fuel start expected config w' (omega arith))))

  -- On the finite input of a `Wire`, the loop of `recv_packet_filtered` never runs out of fuel. A
  -- packet that it returns was taken from the input, which is shorter afterwards.
  pub Advances-recv_packet_filtered :
      (expected : Option PtpIpMessageType) (config : SessionConfig)
      → Advances (recv_packet_filtered be expected config)
  unfolding recv_packet_filtered
  Advances-recv_packet_filtered expected config = record {
    at = λ w. filter_loop-Used (suc (length w.incoming)) w.clock expected config w (omega arith);
  }
