-- ===== src/Commands/Parsing/Objects.antt =====
-- src/commands.rs: `parse_object_info` on every layout that a camera may choose for its strings.
use pipop_core.Base.{
  ℕ, ◌+◌, ◌^◌, ◌≤◌, ◌<◌, ◌≡◌, refl, ◌∷◌, ◌++◌, Bytes, ok, length, length-append, ge→ltb, arith,
}
use pipop_core.Types.{ObjectInfo}
use pipop_core.Io.{read_exact}
use pipop_core.Utils.{write_u16_be, write_u32_be, write_u64_be}
use pipop_core.Utils.Numbers.{read_u64_be-write_u64_be}
use pipop_core.Transport.Strings.{extract_string}
use pipop_core.Transport.Infos.{Span}
use pipop_core.Transport.Infos.Devices.{
  get_u16-write, get_u32-write, SpanFits, put_span, read_span-put_span, length-put_span, extract_ok,
  drop_header,
}
use pipop_core.Commands.Parsing.{get_u8, u8_of, get_u64_be, object_fields, parse_object_info}

pub record ObjectFits (info : ObjectInfo) : Type 0 where
  pub storage_fits : info.storage_id < 2 ^ 32
  pub format_fits : info.object_format < 2 ^ 16
  pub size_fits : info.object_size < 2 ^ 64
  pub thumb_fits : info.thumb_size < 2 ^ 32

-- The places of the four strings.
pub record Spans : Type 0 where
  pub filename : Span
  pub capture_date : Span
  pub modification_date : Span
  pub keywords : Span

pub record SpansFit (s : Spans) : Type 0 where
  pub filename_fits : SpanFits s.filename
  pub capture_fits : SpanFits s.capture_date
  pub modification_fits : SpanFits s.modification_date
  pub keywords_fit : SpanFits s.keywords

-- The strings lie in the answer.
pub record Found (bs : Bytes) (s : Spans) (info : ObjectInfo) : Type 0 where
  pub filename_found : extract_string bs s.filename.offset s.filename.len ≡ ok info.filename
  pub capture_found :
      extract_string bs s.capture_date.offset s.capture_date.len ≡ ok info.capture_date
  pub modification_found :
      extract_string bs s.modification_date.offset s.modification_date.len
      ≡ ok info.modification_date
  pub keywords_found : extract_string bs s.keywords.offset s.keywords.len ≡ ok info.keywords

-- The answer that describes an object, behind a header of eight bytes. One byte is reserved.
unfoldable pub object_body : ObjectInfo → ℕ → Spans → Bytes → Bytes
object_body info reserved s rest =
    write_u32_be info.storage_id
    ++ (write_u16_be info.object_format
        ++ (info.protection_status
            ∷ reserved
            ∷ (write_u64_be info.object_size
                ++ (write_u32_be info.thumb_size
                    ++ put_span s.filename (
                        put_span s.capture_date
                          (put_span s.modification_date (put_span s.keywords rest)))))))

length-object_body :
    (info : ObjectInfo) (reserved : ℕ) (s : Spans) (rest : Bytes)
    → length (object_body info reserved s rest) ≡ length rest + 52
unfolding object_body write_u16_be write_u32_be write_u64_be
length-object_body info reserved s rest = omega (arith, length-put_span)

get_u8-cons : (b : ℕ) (rest : Bytes) → get_u8 (b ∷ rest) ≡ ok (b, rest)
unfolding get_u8 u8_of read_exact
get_u8-cons b rest = refl

get_u64_be-write :
    (n : ℕ) (rest : Bytes) → n < 2 ^ 64 → get_u64_be (write_u64_be n ++ rest) ≡ ok (n, rest)
unfolding get_u64_be
get_u64_be-write n rest h = rw (read_u64_be-write_u64_be n rest h)

object_fields_lem :
    (bs rest : Bytes) (info : ObjectInfo) (reserved : ℕ) (s : Spans)
    → ObjectFits info
    → SpansFit s
    → Found bs s info
    → object_fields bs info.handle (object_body info reserved s rest) ≡ ok (info, rest)
unfolding object_fields object_body
object_fields_lem bs rest info reserved s fits placed found = rw (
  get_u32-write info.storage_id _ fits.storage_fits,
  get_u16-write info.object_format _ fits.format_fits,
  get_u8-cons info.protection_status _,
  get_u64_be-write info.object_size _ fits.size_fits,
  get_u32-write info.thumb_size _ fits.thumb_fits,
  read_span-put_span s.filename _ placed.filename_fits,
  read_span-put_span s.capture_date _ placed.capture_fits,
  read_span-put_span s.modification_date _ placed.modification_fits,
  read_span-put_span s.keywords _ placed.keywords_fit,
  extract_ok bs rest s.filename _ found.filename_found,
  extract_ok bs rest s.capture_date _ found.capture_found,
  extract_ok bs rest s.modification_date _ found.modification_found,
  extract_ok bs rest s.keywords _ found.keywords_found,
)

-- `parse_object_info` returns the handle that was asked for, the numbers of an answer, and the
-- strings that `extract_string` finds at its spans, wherever in the answer they lie. The header has
-- eight bytes, at least four bytes come behind the spans, and every number fits its field.
pub parse_object_info_lem :
    (header rest : Bytes) (info : ObjectInfo) (reserved : ℕ) (s : Spans)
    → length header ≡ 8
    → 4 ≤ length rest
    → ObjectFits info
    → SpansFit s
    → Found (header ++ object_body info reserved s rest) s info
    → parse_object_info (header ++ object_body info reserved s rest) info.handle ≡ ok info
unfolding parse_object_info
parse_object_info_lem header rest info reserved s hh hr fits placed found =
    let body = object_body info reserved s rest in
    rw (
      ge→ltb (length (header ++ body)) 64
          (omega (arith, length-append header body, length-object_body info reserved s rest)),
      drop_header header body hh,
      object_fields_lem (header ++ body) rest info reserved s fits placed found,
    )
