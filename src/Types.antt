-- ===== src/Types.antt =====
-- src/types.rs: configuration, codes and the records that pass between the parts.
pub mod Codes
use pipop_core.Base.{
  ℕ, Bool, true, false, Option, none, some, List, Bytes, Text, ◌==◌, leb, ltb, not, ◌&&◌,
  if◌then◌else◌,
}
use pipop_core.External.{Random}

abbrev pub ptpip_header_size : ℕ
ptpip_header_size = 10

abbrev pub ptpip_default_port : ℕ
ptpip_default_port = 15740

abbrev pub ptpip_max_packet_size : ℕ
ptpip_max_packet_size = 16384

-- `timeout` and `keep_alive_interval` are in seconds.
pub record SessionConfig : Type 0 where
  pub timeout : ℕ
  pub max_retries : ℕ
  pub retry_delay_ms : ℕ
  pub keep_alive_interval : ℕ
  pub version : ℕ

-- `impl Default for SessionConfig`
abbrev pub default_session_config : SessionConfig
default_session_config = record {
  timeout = 30;
  max_retries = 3;
  retry_delay_ms = 1000;
  keep_alive_interval = 10;
  version = 0x0100;
}

-- `SessionHandle(pub u32)`
pub record SessionHandle : Type 0 where
  pub value : ℕ

unfoldable pub new_handle : ℕ → SessionHandle
new_handle value = record { value = value }

unfoldable pub as_u32 : SessionHandle → ℕ
as_u32 h = h.value

-- `impl Default for SessionHandle`
abbrev pub default_handle : SessionHandle
default_handle = record { value = 0 }

unfoldable pub invalid_handle : SessionHandle
invalid_handle = record { value = 0 }

-- `SessionHandle::is_valid`
unfoldable pub is_valid : SessionHandle → Bool
is_valid h = not (h.value == 0)

pub record DownloadStats : Type 0 where
  pub total_bytes : ℕ
  pub downloaded_bytes : ℕ
  pub chunks : ℕ
  pub retries : ℕ
  pub duration_ms : ℕ

-- `DownloadStats::default()`
abbrev pub default_download_stats : DownloadStats
default_download_stats = record {
  total_bytes = 0;
  downloaded_bytes = 0;
  chunks = 0;
  retries = 0;
  duration_ms = 0;
}

pub data PtpIpMessageType : Type 0 where
  discovery_request discovery_response command_block : PtpIpMessageType
  data_block response_block event_block : PtpIpMessageType

-- `message_type as u16`
unfoldable pub message_code : PtpIpMessageType → ℕ
message_code discovery_request = 0x0001
message_code discovery_response = 0x0002
message_code command_block = 0x0003
message_code data_block = 0x0004
message_code response_block = 0x0005
message_code event_block = 0x0006

-- The derived `==` on message types compares the tags.
unfoldable pub same_type : PtpIpMessageType → PtpIpMessageType → Bool
unfolding message_code
same_type a b = message_code a == message_code b

pub data PtpOperationCode : Type 0 where
  ok : PtpOperationCode
  get_device_info : PtpOperationCode
  open_session : PtpOperationCode
  close_session : PtpOperationCode
  get_storage_ids : PtpOperationCode
  get_storage_info : PtpOperationCode
  get_object_handles : PtpOperationCode
  get_object_info : PtpOperationCode
  get_object : PtpOperationCode
  get_thumb : PtpOperationCode
  delete_object : PtpOperationCode
  move_object : PtpOperationCode
  get_device_prop_value : PtpOperationCode
  set_device_prop_value : PtpOperationCode
  initiate_capture : PtpOperationCode
  get_partial_object : PtpOperationCode
  get_object_metadata : PtpOperationCode
  set_object_metadata : PtpOperationCode

-- `code as u16`
unfoldable pub operation_code : PtpOperationCode → ℕ
operation_code ok = 0x2001
operation_code get_device_info = 0x1001
operation_code open_session = 0x1002
operation_code close_session = 0x1003
operation_code get_storage_ids = 0x1004
operation_code get_storage_info = 0x1005
operation_code get_object_handles = 0x1006
operation_code get_object_info = 0x1007
operation_code get_object = 0x1008
operation_code get_thumb = 0x1009
operation_code delete_object = 0x1011
operation_code move_object = 0x1012
operation_code get_device_prop_value = 0x1014
operation_code set_device_prop_value = 0x1015
operation_code initiate_capture = 0x100e
operation_code get_partial_object = 0x101b
operation_code get_object_metadata = 0x1023
operation_code set_object_metadata = 0x1024

unfoldable pub opcode_to_enum : ℕ → Option PtpOperationCode
opcode_to_enum opcode =
    if opcode == 0x2001
    then some ok
    else if opcode == 0x1001
    then some get_device_info
    else if opcode == 0x1002
    then some open_session
    else if opcode == 0x1003
    then some close_session
    else if opcode == 0x1004
    then some get_storage_ids
    else if opcode == 0x1005
    then some get_storage_info
    else if opcode == 0x1006
    then some get_object_handles
    else if opcode == 0x1007
    then some get_object_info
    else if opcode == 0x1008
    then some get_object
    else if opcode == 0x1009
    then some get_thumb
    else if opcode == 0x1011
    then some delete_object
    else if opcode == 0x1012
    then some move_object
    else if opcode == 0x1014
    then some get_device_prop_value
    else if opcode == 0x1015
    then some set_device_prop_value
    else if opcode == 0x100e
    then some initiate_capture
    else if opcode == 0x101b
    then some get_partial_object
    else if opcode == 0x1023
    then some get_object_metadata
    else if opcode == 0x1024
    then some set_object_metadata
    else none

unfoldable pub is_response_opcode : ℕ → Bool
is_response_opcode opcode = leb 0x2000 opcode && leb opcode 0x2fff

pub data EventType : Type 0 where
  object_added object_removed store_added : EventType
  store_removed device_prop_changed request_object_transfer : EventType

-- `event as u16`
unfoldable pub event_code : EventType → ℕ
event_code object_added = 0x4001
event_code object_removed = 0x4002
event_code store_added = 0x4003
event_code store_removed = 0x4004
event_code device_prop_changed = 0x4005
event_code request_object_transfer = 0x4006

-- `Ipv4Addr`, by its octets.
pub record Ipv4Addr : Type 0 where
  pub octet_0 : ℕ
  pub octet_1 : ℕ
  pub octet_2 : ℕ
  pub octet_3 : ℕ

pub record DiscoveredCamera : Type 0 where
  pub ip_address : Ipv4Addr
  pub port : ℕ
  pub model_name : Text
  pub vendor_extension_id : ℕ
  pub vendor_extension_version : ℕ

pub record PtpIpPacket : Type 0 where
  pub message_type : PtpIpMessageType
  pub transaction_id : ℕ
  pub payload : Bytes

pub record DeviceInfo : Type 0 where
  pub manufacturer : Text
  pub model : Text
  pub device_version : Text
  pub serial_number : Text
  pub supported_operations : List ℕ

pub record StorageInfo : Type 0 where
  pub storage_id : ℕ
  pub storage_type : ℕ
  pub filesystem_type : ℕ
  pub access_capability : ℕ
  pub max_capacity : ℕ
  pub free_space_in_bytes : ℕ
  pub free_space_in_objects : ℕ
  pub storage_description : Text
  pub volume_label : Text

pub record ObjectInfo : Type 0 where
  pub handle : ℕ
  pub storage_id : ℕ
  pub object_format : ℕ
  pub protection_status : ℕ
  pub object_size : ℕ
  pub thumb_size : ℕ
  pub filename : Text
  pub capture_date : Text
  pub modification_date : Text
  pub keywords : Text

pub record PtpEvent : Type 0 where
  pub event_type : EventType
  pub transaction_id : ℕ
  pub parameters : List ℕ
