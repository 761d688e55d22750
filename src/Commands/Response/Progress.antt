-- ===== src/Commands/Response/Progress.antt =====
-- src/commands.rs: waiting for a response or for data uses up input, so that the model's loops have
-- fuel enough. The input of a `Wire` is finite.
use pipop_core.Base.{
  ℕ, zero, suc, ◌<◌, ◌≢◌, some, [], ◌++◌, Bytes, Result, err, stuck, length, drop, ltb, ◌==◌,
  if◌then◌else◌, and_then-ne-stuck, map_err-ne-stuck, Bool, true, false, arith,
}
use pipop_core.External.{BigEndian}
use pipop_core.Error.{from_io}
use pipop_core.Types.{PtpIpPacket, SessionConfig, response_block, data_block}
use pipop_core.Net.{Wire}
use pipop_core.Net.Rules.{
  Used, Advances, Ends-bind, Ends-pure, Ends-lift, Kept-if, Kept-of_Used, continue-Used_below,
}
use pipop_core.Transport.Infos.{get_u16}
use pipop_core.Transport.Receive.{recv_packet_filtered}
use pipop_core.Transport.Receive.Progress.{Advances-recv_packet_filtered, read_exact-ne-stuck}
use pipop_core.Transport.Send.{is_empty}
use pipop_core.Utils.{read_u16_be}
use pipop_core.Commands.Response.{
  response_code, check_code, check_response_error, response_loop, get_response, data_loop,
  receive_data_block,
}

get_u16-ne-stuck : (bs : Bytes) → get_u16 bs ≢ stuck
unfolding get_u16 read_u16_be
get_u16-ne-stuck bs =
    map_err-ne-stuck from_io _ (and_then-ne-stuck _ _ (read_exact-ne-stuck 2 bs) (λ r p. cc))

check_code-ne-stuck : (code : ℕ) → check_code code ≢ stuck
unfolding check_code
check_code-ne-stuck code = λ e. ground arith

response_code-ne-stuck : (payload : Bytes) → response_code payload ≢ stuck
unfolding response_code
response_code-ne-stuck payload =
    and_then-ne-stuck _ _ (get_u16-ne-stuck (drop 2 payload)) (λ r p. cc)

if-ne-stuck :
    {E A : Type 0} (b : Bool) (e : E) (r : Result E A)
    → r ≢ stuck
    → (if b then err e else r) ≢ stuck
if-ne-stuck true e r h = λ p. cc
if-ne-stuck false e r h = h

pub check_response_error-ne-stuck : (packet : PtpIpPacket) → check_response_error packet ≢ stuck
unfolding check_response_error
check_response_error-ne-stuck packet =
    if-ne-stuck (ltb (length packet.payload) 8) _ _
      (and_then-ne-stuck _ _ (response_code-ne-stuck packet.payload) check_code-ne-stuck)

module _ (be : BigEndian) where
  response_loop-Used :
      (fuel expected_id : ℕ) (config : SessionConfig) (w : Wire)
      → length w.incoming < fuel
      → Used w (response_loop be fuel expected_id config w)
  unfolding response_loop
  response_loop-Used zero expected_id config w h = absurd (omega arith)
  response_loop-Used (suc fuel) expected_id config w h =
      continue-Used_below w (recv_packet_filtered be (some response_block) config w) _
        ((Advances-recv_packet_filtered be (some response_block) config).at w)
        λ packet w' l.
          Kept-if (packet.transaction_id == expected_id) _ _ w'
            ((Ends-bind _ _ (Ends-lift _ (check_response_error-ne-stuck packet))
                λ u. Ends-pure packet).at
              w')
            (Kept-of_Used w' _ (response_loop-Used fuel expected_id config w' (omega arith)))

  -- On the finite input of a `Wire`, the loop of `get_response` never runs out of fuel. Where it
  -- returns, it has used up input.
  pub Advances-get_response :
      (expected_id : ℕ) (config : SessionConfig) → Advances (get_response be expected_id config)
  unfolding get_response
  Advances-get_response expected_id config = record {
    at = λ w. response_loop-Used (suc (length w.incoming)) expected_id config w (omega arith);
  }

  data_loop-Used :
      (fuel expected_id : ℕ) (config : SessionConfig) (total : Bytes) (w : Wire)
      → length w.incoming < fuel
      → Used w (data_loop be fuel expected_id config total w)
  unfolding data_loop
  data_loop-Used zero expected_id config total w h = absurd (omega arith)
  data_loop-Used (suc fuel) expected_id config total w h =
      continue-Used_below w (recv_packet_filtered be (some data_block) config w) _
        ((Advances-recv_packet_filtered be (some data_block) config).at w)
        λ packet w' l.
          Kept-if (packet.transaction_id == expected_id) _ _ w'
            (Kept-if (is_empty packet.payload) _ _ w' (omega arith) (
              Kept-of_Used w' _ (
                data_loop-Used fuel expected_id config (total ++ packet.payload) w' (omega arith))))
            (Kept-of_Used w' _ (data_loop-Used fuel expected_id config total w' (omega arith)))

  -- On the finite input of a `Wire`, `receive_data_block` never runs out of fuel. Where it returns, it
  -- has used up input.
  pub Advances-receive_data_block :
      (expected_id : ℕ) (config : SessionConfig)
      → Advances (receive_data_block be expected_id config)
  unfolding receive_data_block
  Advances-receive_data_block expected_id config = record {
    at = λ w. data_loop-Used (suc (length w.incoming)) expected_id config [] w (omega arith);
  }
