-- ===== src/Examples/Parsers.antt =====
-- Answers and other data that are parsed.
use pipop_core.Base.{
  ◌+◌, ◌≤◌, ◌≡◌, ◌≢◌, ◌↔◌, refl, some, [], ◌∷◌, ◌++◌, Bytes, Text, All, ok, length, take, drop,
  text, arith,
}
use pipop_core.Types.{
  DeviceInfo, StorageInfo, ObjectInfo, PtpEvent, PtpIpPacket, PtpOperationCode, event_block,
  object_added, operation_code, opcode_to_enum, event_code,
}
use pipop_core.Utils.{write_u16_be, write_u32_be}
use pipop_core.Types.Codes.{opcode_to_enum_iff}
use pipop_core.Utf8.{from_utf8}
use pipop_core.Transport.Strings.{before_zero, extract_string}
use pipop_core.Transport.Strings.Laws.{extract_string_found, extract_string_sound}
use pipop_core.Transport.Infos.{Span, parse_device_info, parse_storage_info}
use pipop_core.Transport.Infos.Devices.{SpanFits, device_body, parse_device_info_lem}
use pipop_core.Transport.Infos.Storages.{StorageFits, storage_body, parse_storage_info_lem}
use pipop_core.Transport.Infos.Short.{TooShort, parse_device_info_short}
use pipop_core.Commands.Parsing.{parse_object_info, parse_event_packet}
use pipop_core.Commands.Parsing.Objects.{
  ObjectFits, Spans, SpansFit, Found, object_body, parse_object_info_lem,
}
use pipop_core.Commands.Parsing.Events.{put_handles, put_event, parse_event_packet-put_event}
use pipop_core.Session.Parsing
use pipop_core.Session.Storages.{parse_storage_ids-put_handles}
use pipop_core.Examples.Data.{network_order}

-- Eight bytes in front of an answer, of which the first three hold a string.
abbrev header : Bytes
header = 65 ∷ 66 ∷ 0 ∷ 0 ∷ 0 ∷ 0 ∷ 0 ∷ 0 ∷ []

abbrev at_front : Span
at_front = record { offset = 0; len = 3 }

at_front_fits : SpanFits at_front
at_front_fits = (omega arith, omega arith)

abbrev name : Text
name = 65 ∷ 66 ∷ []

-- The string is found whatever lies behind it.
name_found : (body : Bytes) → extract_string (header ++ body) 0 3 ≡ ok name
unfolding from_utf8 before_zero
name_found body =
    extract_string_found [] name (0 ∷ []) (0 ∷ 0 ∷ 0 ∷ 0 ∷ 0 ∷ body)
      ((λ e. omega (arith, e)), ((λ e. omega (arith, e)), tt)) refl refl

extract_string_sound_example :
    (0 + 3 ≤ length header)
    × (name ≡ before_zero (take 3 (drop 0 header)))
    × (length name ≤ 3)
    × All (λ b. b ≢ 0) name
extract_string_sound_example = extract_string_sound header 0 3 name (name_found [])

abbrev device : DeviceInfo
device = record {
  manufacturer = name;
  model = name;
  device_version = name;
  serial_number = name;
  supported_operations = 0x1001 ∷ 0x1004 ∷ [];
}

parse_device_info_lem_example :
    parse_device_info
      (header ++ device_body at_front at_front at_front at_front (0x1001 ∷ 0x1004 ∷ []) [])
    ≡ ok device
parse_device_info_lem_example =
    let found =
      name_found (device_body at_front at_front at_front at_front (0x1001 ∷ 0x1004 ∷ []) []) in
    parse_device_info_lem header [] at_front at_front at_front at_front device refl at_front_fits
      at_front_fits at_front_fits at_front_fits (omega arith) (omega arith, (omega arith, tt)) found
      found found found

abbrev storage : StorageInfo
storage = record {
  storage_id = 0x10001;
  storage_type = 3;
  filesystem_type = 2;
  access_capability = 0;
  max_capacity = 0x1_0000_0000;
  free_space_in_bytes = 5;
  free_space_in_objects = 1;
  storage_description = name;
  volume_label = name;
}

storage_fits : StorageFits storage
storage_fits = record {
  id_fits = omega arith;
  type_fits = omega arith;
  filesystem_fits = omega arith;
  access_fits = omega arith;
  capacity_fits = omega arith;
  bytes_fit = omega arith;
  objects_fit = omega arith;
}

parse_storage_info_lem_example :
    parse_storage_info network_order (header ++ storage_body storage at_front at_front [])
    ≡ ok storage
parse_storage_info_lem_example =
    let found = name_found (storage_body storage at_front at_front []) in
    parse_storage_info_lem network_order header [] storage at_front at_front refl storage_fits
      at_front_fits at_front_fits found found

abbrev object : ObjectInfo
object = record {
  handle = 5;
  storage_id = 0x10001;
  object_format = 0x3801;
  protection_status = 0;
  object_size = 100;
  thumb_size = 10;
  filename = name;
  capture_date = name;
  modification_date = name;
  keywords = name;
}

object_fits : ObjectFits object
object_fits = record {
  storage_fits = omega arith;
  format_fits = omega arith;
  size_fits = omega arith;
  thumb_fits = omega arith;
}

abbrev spans : Spans
spans = record {
  filename = at_front;
  capture_date = at_front;
  modification_date = at_front;
  keywords = at_front;
}

spans_fit : SpansFit spans
spans_fit = record {
  filename_fits = at_front_fits;
  capture_fits = at_front_fits;
  modification_fits = at_front_fits;
  keywords_fit = at_front_fits;
}

names-Found : Found (header ++ object_body object 0 spans (0 ∷ 0 ∷ 0 ∷ 0 ∷ [])) spans object
names-Found =
    let found = name_found (object_body object 0 spans (0 ∷ 0 ∷ 0 ∷ 0 ∷ [])) in
    record {
      filename_found = found;
      capture_found = found;
      modification_found = found;
      keywords_found = found;
    }

parse_object_info_lem_example :
    parse_object_info (header ++ object_body object 0 spans (0 ∷ 0 ∷ 0 ∷ 0 ∷ [])) 5 ≡ ok object
parse_object_info_lem_example =
    parse_object_info_lem header (0 ∷ 0 ∷ 0 ∷ 0 ∷ []) object 0 spans refl (omega arith) object_fits
      spans_fit names-Found

abbrev added : PtpEvent
added = record { event_type = object_added; transaction_id = 7; parameters = 5 ∷ [] }

abbrev added_packet : PtpIpPacket
added_packet = record {
  message_type = event_block;
  transaction_id = 7;
  payload = 0x40 ∷ 1 ∷ 0 ∷ 1 ∷ 0 ∷ 0 ∷ 0 ∷ 5 ∷ [];
}

parse_event_packet-put_event_example : parse_event_packet added_packet ≡ ok added
unfolding put_event put_handles write_u16_be write_u32_be event_code
parse_event_packet-put_event_example =
    parse_event_packet-put_event added_packet added [] refl refl (omega arith) (omega arith)
      (omega arith, tt)

parse_device_info_short_example :
    TooShort 24 (text "Insufficient data length for device info") parse_device_info header
parse_device_info_short_example = parse_device_info_short header (omega arith)

parse_storage_ids-put_handles_example :
    Parsing.parse_storage_ids (write_u16_be 2 ++ put_handles (5 ∷ 6 ∷ []) []) ≡ ok (5 ∷ 6 ∷ [])
parse_storage_ids-put_handles_example =
    parse_storage_ids-put_handles (5 ∷ 6 ∷ []) [] (omega arith) (omega arith, (omega arith, tt))

opcode_to_enum_iff_example :
    (opcode_to_enum 0x1007 ≡ some PtpOperationCode.get_object_info)
    ↔ (operation_code PtpOperationCode.get_object_info ≡ 0x1007)
opcode_to_enum_iff_example = opcode_to_enum_iff 0x1007 PtpOperationCode.get_object_info

abbrev five : Bytes
five = 1 ∷ 2 ∷ 3 ∷ 4 ∷ 5 ∷ []
