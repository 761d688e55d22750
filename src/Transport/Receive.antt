-- ===== src/Transport/Receive.antt =====
-- src/transport.rs: receiving a packet, and waiting for one of a given type.
pub mod Progress
pub mod Skipped
pub mod RoundTrip
use pipop_core.Base.{
  ℕ, zero, suc, ◌+◌, ◌-◌, ◌*◌, Option, none, some, List, [], ◌++◌, Bytes, Text, Result, ok, err,
  length, ltb, leb, ◌==◌, if◌then◌else◌, text, hex, Bool, true, false,
}
use pipop_core.Error.{PtpIpError, protocol_error, timeout}
use pipop_core.External.{BigEndian}
use pipop_core.Types.{
  PtpIpMessageType, command_block, data_block, response_block, event_block, PtpIpPacket,
  SessionConfig, same_type,
}
use pipop_core.Utils.{u16_of, u32_of}
use pipop_core.Net.{
  Wire, Net, pure, fail, lift, out_of_fuel, ◌>>=◌, question, attempt, now, read_exact,
}
use pipop_core.Transport.Header.{PtpIpHeader, from_stream}

-- The `match` on the type of the header.
unfoldable pub block_type : ℕ → Result PtpIpError PtpIpMessageType
block_type code =
    if code == 0x0003
    then ok command_block
    else if code == 0x0004
    then ok data_block
    else if code == 0x0005
    then ok response_block
    else if code == 0x0006
    then ok event_block
    else err (protocol_error (text "Unknown message type: 0x" ++ hex 4 code))

-- A zeroed buffer of `n` bytes, read from the stream unless it is empty.
unfoldable pub read_payload : ℕ → Net PtpIpError Bytes
read_payload n = if ltb 0 n then question (read_exact n) else pure []

abbrev pub packet_of : PtpIpMessageType → PtpIpHeader → Bytes → PtpIpPacket
packet_of kind header payload = record {
  message_type = kind;
  transaction_id = header.transaction_id;
  payload = payload;
}

-- The payload of a response comes behind its length, which counts itself. A response whose length
-- cannot be read, or is below 4, has no payload.
unfoldable pub sized_payload : Option Bytes → Net PtpIpError Bytes
sized_payload none = read_payload 0
sized_payload (some len_bytes) =
    if leb 4 (u32_of len_bytes) then read_payload (u32_of len_bytes - 4) else read_payload 0

unfoldable pub response_payload : ℕ → Net PtpIpError Bytes
response_payload header_length =
    if header_length == 0
    then (do len_bytes ← attempt (read_exact 4); sized_payload len_bytes)
    else read_payload 0

unfoldable pub payload_of : PtpIpMessageType → PtpIpHeader → Net PtpIpError Bytes
payload_of data_block header = read_payload header.payload_length
payload_of response_block header = response_payload header.payload_length
payload_of _ header = read_payload 0

-- The test of `recv_packet_filtered` on a packet's type.
unfoldable pub is_expected : Option PtpIpMessageType → PtpIpMessageType → Bool
is_expected none kind = true
is_expected (some expected) kind = same_type kind expected

module _ (be : BigEndian) where
  unfoldable pub recv_packet : Net PtpIpError PtpIpPacket
  recv_packet = do
    type_bytes ← question (read_exact 2)
    header ← from_stream be (some (u16_of type_bytes))
    kind ← lift (block_type header.message_type)
    payload ← payload_of kind header
    pure (packet_of kind header payload)

  -- The loop of `recv_packet_filtered`, which began at `start` on the clock.
  unfoldable pub filter_loop :
      ℕ → ℕ → Option PtpIpMessageType → SessionConfig → Net PtpIpError PtpIpPacket
  filter_loop zero start expected config = out_of_fuel
  filter_loop (suc fuel) start expected config =
      let again = filter_loop fuel start expected config in
      do
        current ← now
        (if ltb (config.timeout * 1000) (current - start) then fail timeout else (do
          packet ← recv_packet
          if is_expected expected packet.message_type then pure packet else again))

  -- Every packet takes at least one byte from the input, whose length is enough fuel.
  unfoldable pub recv_packet_filtered :
      Option PtpIpMessageType → SessionConfig → Net PtpIpError PtpIpPacket
  recv_packet_filtered expected config w =
      filter_loop (suc (length w.incoming)) w.clock expected config w
