-- ===== src/Session/Handshake.antt =====
-- src/session.rs: the commands that open and close a session.
use pipop_core.Base.{ℕ, ◌++◌, Bytes, Result, ok, err, length, take, ltb, if◌then◌else◌, text}
use pipop_core.Error.{PtpIpError, protocol_error}
use pipop_core.External.{BigEndian}
use pipop_core.Types.{SessionConfig, PtpOperationCode, operation_code}
use pipop_core.Utils.{u32_of}
use pipop_core.Net.{Net, pure, lift, ◌>>=◌, ◌>>◌}
use pipop_core.Commands.Request.{send_command}
use pipop_core.Commands.Response.{get_response}

-- The end of `send_open_session`.
unfoldable pub opened_id : Bytes → Result PtpIpError ℕ
opened_id payload =
    if ltb (length payload) 4
    then err (protocol_error (text "OpenSession 响应数据不足"))
    else ok (u32_of (take 4 payload))

module _ (be : BigEndian) where
  unfoldable pub send_open_session : ℕ → ℕ → SessionConfig → Net PtpIpError ℕ
  send_open_session transaction_id version config = do
    send_command be (operation_code PtpOperationCode.open_session) transaction_id
        (be.write_u16 version ++ be.write_u32 0x00000000) config
    response ← get_response be transaction_id config
    lift (opened_id response.payload)

  unfoldable pub send_close_session : ℕ → ℕ → SessionConfig → Net PtpIpError (Unit {0})
  send_close_session transaction_id session_id config = do
    send_command be (operation_code PtpOperationCode.close_session) transaction_id
        (be.write_u32 session_id) config
    response ← get_response be transaction_id config
    pure tt
