-- ===== src/Examples/Objects.antt =====
-- A camera that describes an object.
use pipop_core.Base.{◌+◌, ◌^◌, ◌<◌, ◌≡◌, refl, [], ◌∷◌, ◌++◌, Bytes, Text, ok, length, arith}
use pipop_core.Types.{ObjectInfo, PtpOperationCode, default_session_config}
use pipop_core.Utf8.{from_utf8}
use pipop_core.Utils.{write_u16_be, write_u32_be, write_u64_be}
use pipop_core.Net.Reading.{fed}
use pipop_core.Transport.Send.Packets.{writing}
use pipop_core.Transport.Strings.{before_zero, extract_string}
use pipop_core.Transport.Strings.Laws.{extract_string_found}
use pipop_core.Transport.Infos.{Span}
use pipop_core.Transport.Infos.Devices.{SpanFits, put_span}
use pipop_core.Commands.Parsing.Objects.{ObjectFits, Spans, SpansFit, Found, object_body}
use pipop_core.Commands.Client.{CameraClient, get_object_info}
use pipop_core.Commands.Client.Answers.{success_header, response_bytes, after_exchange}
use pipop_core.Commands.Client.Objects.{get_object_info_answered}
use pipop_core.Examples.Data.{network_order, counting, quiet}

abbrev title : Text
title = 65 ∷ 66 ∷ []

-- The first two bytes of the answer.
abbrev title_span : Span
title_span = record { offset = 0; len = 2 }

title_fits : SpanFits title_span
title_fits = (omega arith, omega arith)

abbrev pub picture : ObjectInfo
picture = record {
  handle = 5;
  storage_id = 0x10001;
  object_format = 0x3801;
  protection_status = 0;
  object_size = 5;
  thumb_size = 10;
  filename = title;
  capture_date = title;
  modification_date = title;
  keywords = title;
}

pub picture_fits : ObjectFits picture
picture_fits = record {
  storage_fits = omega arith;
  format_fits = omega arith;
  size_fits = omega arith;
  thumb_fits = omega arith;
}

abbrev pub places : Spans
places = record {
  filename = title_span;
  capture_date = title_span;
  modification_date = title_span;
  keywords = title_span;
}

pub places_fit : SpansFit places
places_fit = record {
  filename_fits = title_fits;
  capture_fits = title_fits;
  modification_fits = title_fits;
  keywords_fit = title_fits;
}

abbrev pub four : Bytes
four = 0 ∷ 0 ∷ 0 ∷ 0 ∷ []

abbrev pub described : Bytes
described = success_header 65 66 0 0 0 7 ++ object_body picture 0 places four

title_found : extract_string described 0 2 ≡ ok title
unfolding from_utf8 before_zero
title_found =
    extract_string_found [] title [] (0x20 ∷ 1 ∷ 0 ∷ 0 ∷ 0 ∷ 7 ∷ object_body picture 0 places four)
      ((λ e. omega (arith, e)), ((λ e. omega (arith, e)), tt)) refl refl

pub titles-Found : Found described places picture
titles-Found = record {
  filename_found = title_found;
  capture_found = title_found;
  modification_found = title_found;
  keywords_found = title_found;
}

pub described_short : length described + 4 < 2 ^ 32
unfolding object_body put_span write_u16_be write_u32_be write_u64_be
described_short = omega arith

abbrev pub open_client : CameraClient
open_client = record { session_id = 3; config = default_session_config }

get_object_info_answered_example :
    get_object_info network_order counting open_client 5
      (fed (writing quiet []) (response_bytes network_order 0 7 described []))
    ≡ (
      ok picture,
      after_exchange network_order counting PtpOperationCode.get_object_info (5 ∷ []) [] quiet,
    )
get_object_info_answered_example =
    get_object_info_answered network_order counting open_client 0 65 66 0 0 0 7 0 picture places
      four [] quiet (omega arith) (omega arith) (omega arith) picture_fits places_fit titles-Found
      described_short
