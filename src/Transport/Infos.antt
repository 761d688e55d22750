-- ===== src/Transport/Infos.antt =====
-- src/transport.rs: the parsers of the camera's answers on itself and on its storages.
pub mod Devices
pub mod Storages
pub mod Short
use pipop_core.Base.{
  ℕ, zero, suc, ◌+◌, List, [], ◌∷◌, Bytes, Text, Result, ok, err, length, drop, ltb, if◌then◌else◌,
  text, and_then, map_err,
}
use pipop_core.Io.{IoError, Reader, pure, ◌>>=◌, ◌>>◌, lift, run, convert}
use pipop_core.Io
use pipop_core.Error.{PtpIpError, protocol_error, from_io}
use pipop_core.External.{BigEndian}
use pipop_core.Types.{DeviceInfo, StorageInfo}
use pipop_core.Utils.{read_u16_be, read_u32_be}
use pipop_core.Transport.Strings.{extract_string}

-- The readers of src/utils.rs behind a `?`.
unfoldable pub get_u16 : Reader PtpIpError ℕ
get_u16 = convert from_io read_u16_be

unfoldable pub get_u32 : Reader PtpIpError ℕ
get_u32 = convert from_io read_u32_be

-- An offset and a length.
pub record Span : Type 0 where
  pub offset : ℕ
  pub len : ℕ

unfoldable pub read_span : Reader PtpIpError Span
read_span = do offset ← get_u32; len ← get_u32; pure (record { offset = offset; len = len })

-- The loop that reads `count` numbers of 16 bits.
unfoldable pub read_operations : ℕ → Reader PtpIpError (List ℕ)
read_operations zero = pure []
read_operations (suc count) = do
  operation ← get_u16
  rest ← read_operations count
  pure (operation ∷ rest)

unfoldable pub extract : Bytes → Span → Reader PtpIpError Text
extract bs span = lift (extract_string bs span.offset span.len)

unfoldable pub device_fields : Bytes → Reader PtpIpError DeviceInfo
device_fields bs = do
  manufacturer_span ← read_span
  model_span ← read_span
  version_span ← read_span
  serial_span ← read_span
  ops_count ← get_u16
  operations ← read_operations ops_count
  manufacturer ← extract bs manufacturer_span
  model ← extract bs model_span
  device_version ← extract bs version_span
  serial_number ← extract bs serial_span
  pure (record {
    manufacturer = manufacturer;
    model = model;
    device_version = device_version;
    serial_number = serial_number;
    supported_operations = operations;
  })

unfoldable pub parse_device_info : Bytes → Result PtpIpError DeviceInfo
parse_device_info bs =
    if ltb (length bs) 24
    then err (protocol_error (text "Insufficient data length for device info"))
    else run (device_fields bs) (drop 8 bs)

-- `read_u64_be` of src/transport.rs, which reads through the crate `byteorder`.
unfoldable pub get_u64 : BigEndian → Reader PtpIpError ℕ
get_u64 be = convert from_io λ bs. and_then (Io.read_exact 8 bs) λ r. ok (be.read_u64 r.0, r.1)

unfoldable pub storage_fields : BigEndian → Bytes → Reader PtpIpError StorageInfo
storage_fields be bs = do
  storage_id ← get_u32
  storage_type ← get_u16
  filesystem_type ← get_u16
  access_capability ← get_u16
  max_capacity ← get_u64 be
  free_space_in_bytes ← get_u64 be
  free_space_in_objects ← get_u32
  desc_span ← read_span
  label_span ← read_span
  storage_description ← extract bs desc_span
  volume_label ← extract bs label_span
  pure (record {
    storage_id = storage_id;
    storage_type = storage_type;
    filesystem_type = filesystem_type;
    access_capability = access_capability;
    max_capacity = max_capacity;
    free_space_in_bytes = free_space_in_bytes;
    free_space_in_objects = free_space_in_objects;
    storage_description = storage_description;
    volume_label = volume_label;
  })

unfoldable pub parse_storage_info : BigEndian → Bytes → Result PtpIpError StorageInfo
parse_storage_info be bs =
    if ltb (length bs) 40
    then err (protocol_error (text "Insufficient data length for storage info"))
    else run (storage_fields be bs) (drop 8 bs)
