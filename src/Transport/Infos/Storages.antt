-- ===== src/Transport/Infos/Storages.antt =====
-- src/transport.rs: `parse_storage_info` on every layout that a camera may choose for its strings.
use pipop_core.Base.{
  ℕ, ◌^◌, ◌≤◌, ◌<◌, ◌≡◌, ◌∙◌, ap, ◌++◌, Bytes, ok, length, length-append, ge→ltb, arith,
}
use pipop_core.External.{BigEndian}
use pipop_core.Types.{StorageInfo}
use pipop_core.Io.{read_exact}
use pipop_core.Utils.{write_u16_be, write_u32_be, write_u64_be}
use pipop_core.Utils.Numbers.{digits_u64}
use pipop_core.Transport.Strings.{extract_string}
use pipop_core.Transport.Infos.{get_u64, Span, storage_fields, parse_storage_info}
use pipop_core.Transport.Infos.Devices.{
  get_u16-write, get_u32-write, SpanFits, put_span, read_span-put_span, length-put_span, extract_ok,
  drop_header,
}

-- The numbers fit the widths of their fields.
pub record StorageFits (info : StorageInfo) : Type 0 where
  pub id_fits : info.storage_id < 2 ^ 32
  pub type_fits : info.storage_type < 2 ^ 16
  pub filesystem_fits : info.filesystem_type < 2 ^ 16
  pub access_fits : info.access_capability < 2 ^ 16
  pub capacity_fits : info.max_capacity < 2 ^ 64
  pub bytes_fit : info.free_space_in_bytes < 2 ^ 64
  pub objects_fit : info.free_space_in_objects < 2 ^ 32

-- The answer that describes a storage, behind a header of eight bytes.
unfoldable pub storage_body : StorageInfo → Span → Span → Bytes → Bytes
storage_body info d l rest =
    write_u32_be info.storage_id
    ++ (write_u16_be info.storage_type
        ++ (write_u16_be info.filesystem_type
            ++ (write_u16_be info.access_capability
                ++ (write_u64_be info.max_capacity
                    ++ (write_u64_be info.free_space_in_bytes
                        ++ (write_u32_be info.free_space_in_objects
                            ++ put_span d (put_span l rest)))))))

length-storage_body :
    (info : StorageInfo) (d l : Span) (rest : Bytes) → 32 ≤ length (storage_body info d l rest)
unfolding storage_body write_u16_be write_u32_be write_u64_be
length-storage_body info d l rest = omega (arith, length-put_span)

module _ (be : BigEndian) where
  pub get_u64-write :
      (n : ℕ) (rest : Bytes) → n < 2 ^ 64 → get_u64 be (write_u64_be n ++ rest) ≡ ok (n, rest)
  unfolding get_u64 write_u64_be read_exact
  get_u64-write n rest h =
      ap (λ (t : ℕ). ok (t, rest)) (be.read_u64_lem _ _ _ _ _ _ _ _ ∙ digits_u64 n h)

  module _ (info : StorageInfo) (d l : Span) (bs rest : Bytes) where
    storage_fields_lem :
        StorageFits info
        → SpanFits d
        → SpanFits l
        → extract_string bs d.offset d.len ≡ ok info.storage_description
        → extract_string bs l.offset l.len ≡ ok info.volume_label
        → storage_fields be bs (storage_body info d l rest) ≡ ok (info, rest)
    unfolding storage_fields storage_body
    storage_fields_lem fits hd hl ed el = rw (
      get_u32-write info.storage_id _ fits.id_fits,
      get_u16-write info.storage_type _ fits.type_fits,
      get_u16-write info.filesystem_type _ fits.filesystem_fits,
      get_u16-write info.access_capability _ fits.access_fits,
      get_u64-write info.max_capacity _ fits.capacity_fits,
      get_u64-write info.free_space_in_bytes _ fits.bytes_fit,
      get_u32-write info.free_space_in_objects _ fits.objects_fit,
      read_span-put_span d _ hd,
      read_span-put_span l _ hl,
      extract_ok bs rest d _ ed,
      extract_ok bs rest l _ el,
    )

  -- `parse_storage_info` returns the numbers of an answer and the two strings that `extract_string`
  -- finds at its spans, wherever in the answer they lie. The header has eight bytes, and every
  -- number fits its field.
  pub parse_storage_info_lem :
      (header rest : Bytes) (info : StorageInfo) (d l : Span)
      → length header ≡ 8
      → StorageFits info
      → SpanFits d
      → SpanFits l
      → let answer = header ++ storage_body info d l rest in
        extract_string answer d.offset d.len ≡ ok info.storage_description
        → extract_string answer l.offset l.len ≡ ok info.volume_label
        → parse_storage_info be answer ≡ ok info
  unfolding parse_storage_info
  parse_storage_info_lem header rest info d l hh fits hd hl ed el =
      let body = storage_body info d l rest in
      rw (
        ge→ltb (length (header ++ body)) 40
            (omega (arith, length-append header body, length-storage_body info d l rest)),
        drop_header header body hh,
        storage_fields_lem info d l (header ++ body) rest fits hd hl ed el,
      )
