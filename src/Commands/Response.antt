-- ===== src/Commands/Response.antt =====
-- src/commands.rs: waiting for the response to a command, and for its data.
pub mod Foreign
pub mod Progress
pub mod Soundness
pub mod Blocks
use pipop_core.Base.{
  ℕ, zero, suc, List, [], ◌∷◌, ◌++◌, Bytes, Text, Result, ok, err, length, drop, ltb, ◌==◌,
  if◌then◌else◌, text, hex, some, and_then, map_err,
}
use pipop_core.Io.{run}
use pipop_core.Error.{PtpIpError, protocol_error, device_error}
use pipop_core.External.{BigEndian}
use pipop_core.Types.{
  PtpIpPacket, SessionConfig, response_block, data_block, operation_code, PtpOperationCode,
}
use pipop_core.Net.{Wire, Net, pure, lift, out_of_fuel, ◌>>=◌, ◌>>◌}
use pipop_core.Transport.Infos.{get_u16}
use pipop_core.Transport.Receive.{recv_packet_filtered}
use pipop_core.Transport.Send.{is_empty}

-- The message of each response code.
unfoldable pub response_message : ℕ → Text
response_message code =
    if code == 0x2002
    then text "General error"
    else if code == 0x2003
    then text "Session not open"
    else if code == 0x2004
    then text "Invalid transaction ID"
    else if code == 0x2005
    then text "Unsupported operation"
    else if code == 0x2006
    then text "Unsupported parameter"
    else if code == 0x2007
    then text "Incomplete transfer"
    else if code == 0x2008
    then text "Invalid storage ID"
    else if code == 0x2009
    then text "Invalid object handle"
    else text "Unknown error (0x" ++ (hex 4 code ++ text ")")

-- The response code stands behind two bytes for the version.
unfoldable pub response_code : Bytes → Result PtpIpError ℕ
response_code payload = run get_u16 (drop 2 payload)

unfoldable pub check_code : ℕ → Result PtpIpError (Unit {0})
check_code code =
    if code == operation_code PtpOperationCode.ok
    then ok tt
    else err (device_error code (response_message code))

unfoldable pub check_response_error : PtpIpPacket → Result PtpIpError (Unit {0})
check_response_error packet =
    if ltb (length packet.payload) 8
    then err (protocol_error (text "Insufficient response packet length"))
    else and_then (response_code packet.payload) check_code

module _ (be : BigEndian) where
  -- The loop of `get_response`. It has no time limit of its own: it goes on for as long as responses
  -- to other transactions come. On a finite input its length is enough fuel, as a packet takes input.
  unfoldable pub response_loop : ℕ → ℕ → SessionConfig → Net PtpIpError PtpIpPacket
  response_loop zero expected_id config = out_of_fuel
  response_loop (suc fuel) expected_id config =
      let again = response_loop fuel expected_id config in
      do
        packet ← recv_packet_filtered be (some response_block) config
        (if packet.transaction_id == expected_id
            then lift (check_response_error packet) >> pure packet
            else again)

  unfoldable pub get_response : ℕ → SessionConfig → Net PtpIpError PtpIpPacket
  get_response expected_id config w = response_loop (suc (length w.incoming)) expected_id config w

  -- The loop of `receive_data_block`, with the data so far. It has no time limit of its own either.
  unfoldable pub data_loop : ℕ → ℕ → SessionConfig → Bytes → Net PtpIpError Bytes
  data_loop zero expected_id config total = out_of_fuel
  data_loop (suc fuel) expected_id config total = do
    packet ← recv_packet_filtered be (some data_block) config
    let skipped = data_loop fuel expected_id config total
    let more = data_loop fuel expected_id config (total ++ packet.payload)
    if packet.transaction_id == expected_id
        then (if is_empty packet.payload then pure total else more)
        else skipped

  unfoldable pub receive_data_block : ℕ → SessionConfig → Net PtpIpError Bytes
  receive_data_block expected_id config w =
      data_loop (suc (length w.incoming)) expected_id config [] w
