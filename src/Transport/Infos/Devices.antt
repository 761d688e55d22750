-- ===== src/Transport/Infos/Devices.antt =====
-- src/transport.rs: `parse_device_info` on every layout that a camera may choose for its strings.
use pipop_core.Base.{
  ℕ, ◌+◌, ◌^◌, ◌≤◌, ◌<◌, ◌≡◌, refl, List, [], ◌∷◌, ◌++◌, Bytes, Text, ok, length, length-append,
  drop, drop-length_append, All, ge→ltb, arith,
}
use pipop_core.Types.{DeviceInfo}
use pipop_core.Utils.{write_u16_be, write_u32_be}
use pipop_core.Utils.Numbers.{read_u16_be-write_u16_be, read_u32_be-write_u32_be}
use pipop_core.Transport.Strings.{extract_string}
use pipop_core.Transport.Infos.{
  get_u16, get_u32, Span, read_span, read_operations, extract, device_fields, parse_device_info,
}

pub drop_header : (header body : Bytes) → length header ≡ 8 → drop 8 (header ++ body) ≡ body
drop_header header body h = rw h at (drop-length_append header body)

pub get_u16-write :
    (n : ℕ) (rest : Bytes) → n < 2 ^ 16 → get_u16 (write_u16_be n ++ rest) ≡ ok (n, rest)
unfolding get_u16
get_u16-write n rest h = rw (read_u16_be-write_u16_be n rest h)

pub get_u32-write :
    (n : ℕ) (rest : Bytes) → n < 2 ^ 32 → get_u32 (write_u32_be n ++ rest) ≡ ok (n, rest)
unfolding get_u32
get_u32-write n rest h = rw (read_u32_be-write_u32_be n rest h)

abbrev pub SpanFits : Span → Type 0
SpanFits s = (s.offset < 2 ^ 32) × (s.len < 2 ^ 32)

-- A span as it stands in an answer, and what comes behind it.
unfoldable pub put_span : Span → Bytes → Bytes
put_span s rest = write_u32_be s.offset ++ (write_u32_be s.len ++ rest)

unfoldable pub put_operations : List ℕ → Bytes → Bytes
put_operations [] rest = rest
put_operations (x ∷ xs) rest = write_u16_be x ++ put_operations xs rest

pub read_span-put_span :
    (s : Span) (rest : Bytes) → SpanFits s → read_span (put_span s rest) ≡ ok (s, rest)
unfolding read_span put_span
read_span-put_span s rest h =
    rw (get_u32-write s.offset (write_u32_be s.len ++ rest) h.0, get_u32-write s.len rest h.1)

read_operations-put_operations :
    (ops : List ℕ) (rest : Bytes)
    → All (λ x. x < 2 ^ 16) ops
    → read_operations (length ops) (put_operations ops rest) ≡ ok (ops, rest)
unfolding read_operations put_operations
read_operations-put_operations [] rest h = refl
read_operations-put_operations (x ∷ xs) rest h =
    rw (get_u16-write x (put_operations xs rest) h.0, read_operations-put_operations xs rest h.1)

pub length-put_span : (s : Span) (rest : Bytes) → length (put_span s rest) ≡ length rest + 8
unfolding put_span write_u32_be
length-put_span s rest = omega arith

-- The answer that describes a device: where its four strings lie, its operations, and the rest, in
-- which the strings may lie. A header of eight bytes stands in front of it.
unfoldable pub device_body : Span → Span → Span → Span → List ℕ → Bytes → Bytes
device_body m o v s ops rest =
    put_span m
      (put_span o (put_span v (put_span s (write_u16_be (length ops) ++ put_operations ops rest))))

length-device_body :
    (m o v s : Span) (ops : List ℕ) (rest : Bytes) → 32 ≤ length (device_body m o v s ops rest)
unfolding device_body
length-device_body m o v s ops rest = omega (arith, length-put_span)

pub extract_ok :
    (bs rest : Bytes) (s : Span) (t : Text)
    → extract_string bs s.offset s.len ≡ ok t
    → extract bs s rest ≡ ok (t, rest)
unfolding extract
extract_ok bs rest s t e = rw e

module _ (m o v s : Span) (info : DeviceInfo) (bs rest : Bytes) where
  abbrev ops : List ℕ
  ops = info.supported_operations

  device_fields_lem :
      SpanFits m
      → SpanFits o
      → SpanFits v
      → SpanFits s
      → length ops < 2 ^ 16
      → All (λ x. x < 2 ^ 16) ops
      → extract_string bs m.offset m.len ≡ ok info.manufacturer
      → extract_string bs o.offset o.len ≡ ok info.model
      → extract_string bs v.offset v.len ≡ ok info.device_version
      → extract_string bs s.offset s.len ≡ ok info.serial_number
      → device_fields bs (device_body m o v s ops rest) ≡ ok (info, rest)
  unfolding device_fields device_body
  device_fields_lem hm ho hv hs hc hops em eo ev es = rw (
    read_span-put_span m _ hm,
    read_span-put_span o _ ho,
    read_span-put_span v _ hv,
    read_span-put_span s _ hs,
    get_u16-write (length ops) (put_operations ops rest) hc,
    read_operations-put_operations ops rest hops,
    extract_ok bs rest m _ em,
    extract_ok bs rest o _ eo,
    extract_ok bs rest v _ ev,
    extract_ok bs rest s _ es,
  )

-- `parse_device_info` returns the operations of an answer and the strings that `extract_string`
-- finds at its spans, wherever in the answer they lie. The header has eight bytes, the spans have
-- 32 bits, the number of the operations and each of them 16 bits.
pub parse_device_info_lem :
    (header rest : Bytes) (m o v s : Span) (info : DeviceInfo)
    → length header ≡ 8
    → SpanFits m
    → SpanFits o
    → SpanFits v
    → SpanFits s
    → length info.supported_operations < 2 ^ 16
    → All (λ x. x < 2 ^ 16) info.supported_operations
    → let answer = header ++ device_body m o v s info.supported_operations rest in
      extract_string answer m.offset m.len ≡ ok info.manufacturer
      → extract_string answer o.offset o.len ≡ ok info.model
      → extract_string answer v.offset v.len ≡ ok info.device_version
      → extract_string answer s.offset s.len ≡ ok info.serial_number
      → parse_device_info answer ≡ ok info
unfolding parse_device_info
parse_device_info_lem header rest m o v s info hh hm ho hv hs hc hops em eo ev es =
    let body = device_body m o v s info.supported_operations rest in
    rw (
      ge→ltb (length (header ++ body)) 24 (
          omega (
            arith,
            length-append header body,
            length-device_body m o v s info.supported_operations rest,
          )),
      drop_header header body hh,
      device_fields_lem m o v s info (header ++ body) rest hm ho hv hs hc hops em eo ev es,
    )
