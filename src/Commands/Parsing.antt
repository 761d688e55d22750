-- ===== src/Commands/Parsing.antt =====
-- src/commands.rs: the parsers of lists of handles, of an object's description and of events.
pub mod Handles
pub mod Objects
pub mod Events
use pipop_core.Base.{
  ℕ, zero, suc, List, [], ◌∷◌, ◌++◌, Bytes, Text, Result, ok, err, length, drop, ltb, ◌==◌,
  if◌then◌else◌, text, hex, map_err, and_then,
}
use pipop_core.Io.{Reader, IoError, pure, ◌>>=◌, ◌>>◌, skip, lift, run, convert, read_exact}
use pipop_core.Error.{PtpIpError, protocol_error, from_io}
use pipop_core.Types.{
  ObjectInfo, PtpIpPacket, PtpEvent, EventType, object_added, object_removed, store_added,
  store_removed, device_prop_changed, request_object_transfer,
}
use pipop_core.Utils.{read_u64_be}
use pipop_core.Transport.Infos.{get_u16, get_u32, read_span, extract}

-- The loop that reads `count` numbers of 32 bits.
unfoldable pub read_handles : ℕ → Reader PtpIpError (List ℕ)
read_handles zero = pure []
read_handles (suc count) = do handle ← get_u32; rest ← read_handles count; pure (handle ∷ rest)

unfoldable pub counted_handles : Reader PtpIpError (List ℕ)
counted_handles = do count ← get_u32; read_handles count

unfoldable pub parse_storage_ids : Bytes → Result PtpIpError (List ℕ)
parse_storage_ids bs =
    if ltb (length bs) 10
    then err (protocol_error (text "Insufficient data for storage ID list"))
    else run counted_handles (drop 8 bs)

unfoldable pub parse_object_handles : Bytes → Result PtpIpError (List ℕ)
parse_object_handles bs =
    if ltb (length bs) 10
    then err (protocol_error (text "Insufficient data length for object handles"))
    else run counted_handles (drop 8 bs)

-- A byte of a buffer of length one.
unfoldable pub u8_of : Bytes → ℕ
u8_of (b ∷ []) = b
u8_of _ = 0

-- `read_u8_be`
unfoldable pub get_u8 : Reader PtpIpError ℕ
get_u8 = convert from_io λ bs. and_then (read_exact 1 bs) λ r. ok (u8_of r.0, r.1)

-- `read_u64_be` of src/utils.rs behind a `?`.
unfoldable pub get_u64_be : Reader PtpIpError ℕ
get_u64_be = convert from_io read_u64_be

unfoldable pub object_fields : Bytes → ℕ → Reader PtpIpError ObjectInfo
object_fields bs object_handle = do
  storage_id ← get_u32
  object_format ← get_u16
  protection_status ← get_u8
  skip 1
  object_size ← get_u64_be
  thumb_size ← get_u32
  filename_span ← read_span
  capture_date_span ← read_span
  modification_date_span ← read_span
  keywords_span ← read_span
  filename ← extract bs filename_span
  capture_date ← extract bs capture_date_span
  modification_date ← extract bs modification_date_span
  keywords ← extract bs keywords_span
  pure (record {
    handle = object_handle;
    storage_id = storage_id;
    object_format = object_format;
    protection_status = protection_status;
    object_size = object_size;
    thumb_size = thumb_size;
    filename = filename;
    capture_date = capture_date;
    modification_date = modification_date;
    keywords = keywords;
  })

unfoldable pub parse_object_info : Bytes → ℕ → Result PtpIpError ObjectInfo
parse_object_info bs object_handle =
    if ltb (length bs) 64
    then err (protocol_error (text "Insufficient data length for object info"))
    else run (object_fields bs object_handle) (drop 8 bs)

unfoldable pub event_type_of : ℕ → Result PtpIpError EventType
event_type_of code =
    if code == 0x4001
    then ok object_added
    else if code == 0x4002
    then ok object_removed
    else if code == 0x4003
    then ok store_added
    else if code == 0x4004
    then ok store_removed
    else if code == 0x4005
    then ok device_prop_changed
    else if code == 0x4006
    then ok request_object_transfer
    else err (protocol_error (text "Unknown event type: 0x" ++ hex 4 code))

unfoldable pub event_fields : ℕ → Reader PtpIpError PtpEvent
event_fields transaction_id = do
  event_code ← get_u16
  param_count ← get_u16
  parameters ← read_handles param_count
  event_type ← lift (event_type_of event_code)
  pure
      (record { event_type = event_type; transaction_id = transaction_id; parameters = parameters })

unfoldable pub parse_event_packet : PtpIpPacket → Result PtpIpError PtpEvent
parse_event_packet packet =
    if ltb (length packet.payload) 6
    then err (protocol_error (text "Insufficient data length for event packet"))
    else run (event_fields packet.transaction_id) packet.payload
