-- ===== src/Session.antt =====
-- src/session.rs: `Session`, which opens and closes a session and keeps it alive.
pub mod Parsing
pub mod Handshake
pub mod Storages
pub mod Opening
pub mod Heartbeat
pub mod Dialing
use pipop_core.Base.{
  ℕ, zero, suc, ◌+◌, ◌-◌, ◌*◌, ◌/◌, Bool, true, false, ◌&&◌, List, [], ◌∷◌, ◌++◌, Bytes, Text,
  Result, ok, err, stuck, ltb, if◌then◌else◌,
}
use pipop_core.Error.{PtpIpError, protocol_error}
use pipop_core.External.{BigEndian, Random}
use pipop_core.Types.{
  PtpIpPacket, SessionConfig, DeviceInfo, StorageInfo, PtpOperationCode, operation_code,
}
use pipop_core.Net.{Wire, Net, generate_transaction_id}
use pipop_core.Net
use pipop_core.Session.Parsing.{parse_storage_ids}
use pipop_core.Session.Handshake.{send_open_session, send_close_session}
use pipop_core.Transport.Infos.{parse_device_info, parse_storage_info}
use pipop_core.Commands.Request.{send_command}
use pipop_core.Commands.Response.{get_response}

-- The stream is the `Wire`. `last_activity` is a time on its clock, in milliseconds.
pub record Session : Type 0 where
  pub config : SessionConfig
  pub session_id : ℕ
  pub last_activity : ℕ
  pub transaction_id : ℕ
  pub is_connected : Bool

-- A method on `&mut self`: it changes the session also where it fails.
abbrev pub Method : Type 0 → Type 0
Method A = Session → Wire → Result PtpIpError A × Session × Wire

abbrev pub resume : {A B : Type 0} → Result PtpIpError A → (A → Method B) → Method B
resume (ok a) f s w = f a s w
resume (err e) f s w = (err e, s, w)
resume stuck f s w = (stuck, s, w)

infixl 5 ◌>>=◌ ◌>>◌
abbrev pub ◌>>=◌ : {A B : Type 0} → Method A → (A → Method B) → Method B
◌>>=◌ m f s w = resume (m s w).0 f (m s w).1 (m s w).2

abbrev pub ◌>>◌ : {A B : Type 0} → Method A → Method B → Method B
m >> k = m >>= λ _. k

abbrev pub pure : {A : Type 0} → A → Method A
pure a s w = (ok a, s, w)

abbrev pub lift : {A : Type 0} → Result PtpIpError A → Method A
lift r s w = (r, s, w)

-- A call on the stream that reads the session's configuration.
abbrev pub on_stream : {A : Type 0} → (SessionConfig → Net PtpIpError A) → Method A
on_stream m s w = ((m s.config w).0, s, (m s.config w).1)

unfoldable pub update_activity : Method (Unit {0})
update_activity s w = (ok tt, record s { last_activity = w.clock }, w)

-- The condition of `check_heartbeat`.
unfoldable pub is_idle : Session → Wire → Bool
is_idle s w = s.is_connected && ltb (s.config.timeout / 2 * 1000) (w.clock - s.last_activity)

module _ (be : BigEndian) (rng : Random) where
  -- `connect`, from the open stream on.
  unfoldable pub connect : SessionConfig → Net PtpIpError Session
  connect config = Net.◌>>=◌ (generate_transaction_id rng) λ transaction_id.
      Net.◌>>=◌ (send_open_session be transaction_id config.version config) λ session_id.
        Net.◌>>=◌ Net.now λ time. Net.pure (record {
          config = config;
          session_id = session_id;
          last_activity = time;
          transaction_id = transaction_id;
          is_connected = true;
        })

  -- What the methods have in common: a transaction id is drawn, and the command goes out and is
  -- answered.
  unfoldable pub exchange : PtpOperationCode → Bytes → Method PtpIpPacket
  exchange operation params = do
    transaction_id ← on_stream (λ config. generate_transaction_id rng)
    on_stream (send_command be (operation_code operation) transaction_id params)
    on_stream (get_response be transaction_id)

  unfoldable pub send_heartbeat : Method (Unit {0})
  send_heartbeat = do response ← exchange PtpOperationCode.get_device_info []; update_activity

  unfoldable pub check_heartbeat : Method (Unit {0})
  check_heartbeat s w = if is_idle s w then send_heartbeat s w else (ok tt, s, w)

  unfoldable pub get_device_info : Method DeviceInfo
  get_device_info = do
    check_heartbeat
    response ← exchange PtpOperationCode.get_device_info []
    device_info ← lift (parse_device_info response.payload)
    update_activity
    pure device_info

  unfoldable pub get_storage_ids : Method (List ℕ)
  get_storage_ids = do
    check_heartbeat
    response ← exchange PtpOperationCode.get_storage_ids []
    lift (parse_storage_ids response.payload)

  unfoldable pub get_storage_info : ℕ → Method StorageInfo
  get_storage_info storage_id = do
    check_heartbeat
    response ← exchange PtpOperationCode.get_storage_info (be.write_u32 storage_id)
    storage_info ← lift (parse_storage_info be response.payload)
    update_activity
    pure storage_info

  -- `Drop`: what became of the closing command is ignored.
  unfoldable pub drop : Session → Wire → Session × Wire
  drop s w =
      if s.is_connected
      then (
        record s { is_connected = false },
        (send_close_session be (rng.draw w.drawn) s.session_id s.config
            (record w { drawn = w.drawn + 1 })).1,
      )
      else (s, w)
