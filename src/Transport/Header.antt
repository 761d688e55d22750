-- ===== src/Transport/Header.antt =====
-- src/transport.rs: the header of a packet.
pub mod RoundTrip
use pipop_core.Base.{
  ℕ, Option, none, some, List, [], ◌++◌, Bytes, Result, ok, err, stuck, map_err, and_then, ◌==◌,
  if◌then◌else◌,
}
use pipop_core.Io.{IoError, Reader}
use pipop_core.Io
use pipop_core.Error.{PtpIpError, from_io}
use pipop_core.External.{BigEndian}
use pipop_core.Types.{message_code, data_block}
use pipop_core.Utils.{u32_of}
use pipop_core.Net.{Wire, Net, pure, lift, ◌>>=◌, question, read_exact}

pub record PtpIpHeader : Type 0 where
  pub message_type : ℕ
  pub reserved : ℕ
  pub transaction_id : ℕ
  pub payload_length : ℕ

abbrev pub header_after_type_size : ℕ
header_after_type_size = 6

abbrev pub full_header_size : ℕ
full_header_size = 8

-- The value that a reader returns, without what it left.
abbrev pub finish : {E A : Type 0} → Result E (A × Bytes) → Result E A
finish (ok (a, _)) = ok a
finish (err e) = err e
finish stuck = stuck

unfoldable pub read_size : Option ℕ → ℕ
read_size (some _) = header_after_type_size
read_size none = full_header_size

-- The additional length field of a data block.
unfoldable pub payload_length : ℕ → Net PtpIpError ℕ
payload_length message_type =
    if message_type == message_code data_block
    then (do len_bytes ← question (read_exact 4); pure (u32_of len_bytes))
    else pure 0

module _ (be : BigEndian) where
  -- `ReadBytesExt::read_u16` and `read_u32` on a cursor: a `read_exact`, and the crate's conversion.
  unfoldable pub cursor_u16 : Reader IoError ℕ
  unfolding Io.read_exact
  cursor_u16 bs = and_then (Io.read_exact 2 bs) λ r. ok (be.read_u16 r.0, r.1)

  unfoldable pub cursor_u32 : Reader IoError ℕ
  unfolding Io.read_exact
  cursor_u32 bs = and_then (Io.read_exact 4 bs) λ r. ok (be.read_u32 r.0, r.1)

  -- The message type, unless it is given, then the reserved field and the transaction id. The
  -- `unwrap` of the first read cannot fail: it is made on a buffer of eight bytes.
  unfoldable pub header_type : Option ℕ → Reader IoError ℕ
  header_type (some message_type) = Io.pure message_type
  header_type none = cursor_u16

  unfoldable pub header_fields : Option ℕ → Reader IoError (ℕ × ℕ × ℕ)
  header_fields message_type bs = and_then (header_type message_type bs) λ r₁.
      and_then (cursor_u16 r₁.1)
        λ r₂. and_then (cursor_u32 r₂.1) λ r₃. ok ((r₁.0, r₂.0, r₃.0), r₃.1)

  unfoldable pub from_stream : Option ℕ → Net PtpIpError PtpIpHeader
  from_stream message_type = do
    header_bytes ← question (read_exact (read_size message_type))
    (kind, reserved, transaction_id) ←
        lift (map_err from_io (finish (header_fields message_type header_bytes)))
    length_field ← payload_length kind
    pure (record {
      message_type = kind;
      reserved = reserved;
      transaction_id = transaction_id;
      payload_length = length_field;
    })

  -- `write_u16` and `write_u32` into a `Vec` cannot fail.
  unfoldable pub to_bytes : PtpIpHeader → Bytes
  unfolding message_code
  to_bytes h =
      be.write_u16 h.message_type
      ++ (be.write_u16 h.reserved
          ++ (be.write_u32 h.transaction_id
              ++ (if h.message_type == message_code data_block
                  then be.write_u32 h.payload_length
                  else [])))
