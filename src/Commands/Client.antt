-- ===== src/Commands/Client.antt =====
-- src/commands.rs: the operations of `CameraClient` over an open connection.
pub mod Answers
pub mod Objects
pub mod Dialing
use pipop_core.Base.{
  ℕ, zero, suc, List, [], ◌∷◌, ◌++◌, Bytes, Result, ok, err, length, drop, ltb, if◌then◌else◌, text,
}
use pipop_core.Io.{run}
use pipop_core.Error.{PtpIpError, protocol_error}
use pipop_core.External.{BigEndian, Random}
use pipop_core.Types.{
  PtpIpPacket, SessionConfig, DeviceInfo, StorageInfo, ObjectInfo, PtpOperationCode, operation_code,
}
use pipop_core.Net.{Wire, Net, pure, lift, ◌>>=◌, ◌>>◌, generate_transaction_id}
use pipop_core.Transport.Infos.{get_u32, parse_device_info, parse_storage_info}
use pipop_core.Commands.Request.{send_command}
use pipop_core.Commands.Response.{get_response}
use pipop_core.Commands.Parsing.{parse_storage_ids, parse_object_handles, parse_object_info}

-- The stream is the `Wire`. The receiver of the events is not part of the state.
pub record CameraClient : Type 0 where
  pub session_id : ℕ
  pub config : SessionConfig

-- The end of `initiate_capture`: the handle stands behind eight bytes.
unfoldable pub parse_capture : Bytes → Result PtpIpError ℕ
parse_capture payload =
    if ltb (length payload) 12
    then err (protocol_error (text "Insufficient data length for capture response"))
    else run get_u32 (drop 8 payload)

module _ (be : BigEndian) (rng : Random) where
  -- What every operation does: it draws a transaction id, sends its command with the bytes of its
  -- parameters, and waits for the response.
  unfoldable pub exchange : PtpOperationCode → Bytes → SessionConfig → Net PtpIpError PtpIpPacket
  exchange operation params config = do
    transaction_id ← generate_transaction_id rng
    send_command be (operation_code operation) transaction_id params config
    get_response be transaction_id config

  -- `connect`, from the open stream on, without the listener.
  unfoldable pub connect : SessionConfig → Net PtpIpError CameraClient
  connect config = do
    session_id ← generate_transaction_id rng
    response ← exchange PtpOperationCode.open_session (be.write_u32 session_id) config
    pure (record { session_id = session_id; config = config })

  module _ (client : CameraClient) where
    unfoldable pub get_device_info : Net PtpIpError DeviceInfo
    get_device_info = do
      response ← exchange PtpOperationCode.get_device_info [] client.config
      lift (parse_device_info response.payload)

    unfoldable pub get_storage_ids : Net PtpIpError (List ℕ)
    get_storage_ids = do
      response ← exchange PtpOperationCode.get_storage_ids [] client.config
      lift (parse_storage_ids response.payload)

    unfoldable pub get_storage_info : ℕ → Net PtpIpError StorageInfo
    get_storage_info storage_id = do
      response ← exchange PtpOperationCode.get_storage_info (be.write_u32 storage_id) client.config
      lift (parse_storage_info be response.payload)

    unfoldable pub get_object_handles : ℕ → ℕ → ℕ → Net PtpIpError (List ℕ)
    get_object_handles storage_id object_format max_count = do
      response ←
          exchange PtpOperationCode.get_object_handles
            (be.write_u32 storage_id
              ++ (be.write_u16 object_format
                  ++ (be.write_u16 0x0000 ++ (be.write_u32 0 ++ be.write_u32 max_count))))
            client.config
      lift (parse_object_handles response.payload)

    unfoldable pub get_object_info : ℕ → Net PtpIpError ObjectInfo
    get_object_info object_handle = do
      response ←
          exchange PtpOperationCode.get_object_info (be.write_u32 object_handle) client.config
      lift (parse_object_info response.payload object_handle)

    unfoldable pub initiate_capture : ℕ → ℕ → Net PtpIpError ℕ
    initiate_capture storage_id format = do
      response ←
          exchange PtpOperationCode.initiate_capture
            (be.write_u32 storage_id ++ (be.write_u16 format ++ be.write_u16 0x0000)) client.config
      lift (parse_capture response.payload)

    unfoldable pub delete_object : ℕ → Net PtpIpError (Unit {0})
    delete_object object_handle = do
      response ← exchange PtpOperationCode.delete_object (be.write_u32 object_handle) client.config
      pure tt

    unfoldable pub close : Net PtpIpError (Unit {0})
    close = do
      response ←
          exchange PtpOperationCode.close_session (be.write_u32 client.session_id) client.config
      pure tt
