-- ===== src/Transport/Infos/Short.antt =====
-- src/transport.rs: answers that end inside their fixed part.
use pipop_core.Base.{
  ℕ, ◌≤◌, ◌<◌, ◌≡◌, refl, [], ◌∷◌, Result, and_then, ltb, if◌then◌else◌, Bytes, Text, ok, err,
  length, length-drop, take, drop, text, arith,
}
use pipop_core.Io
use pipop_core.Io.{eof_error, ◌>>=◌, convert}
use pipop_core.Io.Needs.{Takes, Needs, Needs-bind, Needs-nothing}
use pipop_core.Error.{PtpIpError, from_io, protocol_error}
use pipop_core.External.{BigEndian}
use pipop_core.Utils.{read_u16_be, read_u32_be, u16_of, u32_of}
use pipop_core.Utils.Numbers.{read_exact-take, read_exact_eof}
use pipop_core.Transport.Infos.{
  get_u16, get_u32, get_u64, Span, read_span, device_fields, storage_fields, parse_device_info,
  parse_storage_info,
}

-- The error of a parser whose input ends too early.
abbrev pub at_end : PtpIpError
at_end = from_io eof_error

-- A reader that converts the next `k` bytes.
fixed_Takes :
    (k : ℕ) (g : Bytes → ℕ)
    → Takes at_end k (convert from_io λ bs. and_then (Io.read_exact k bs) λ r. ok (g r.0, r.1))
fixed_Takes k g = record {
  short = λ bs h. rw (read_exact_eof k bs h);
  enough = λ bs h. (g (take k bs), rw (read_exact-take k bs h));
}

pub get_u16-Takes : Takes at_end 2 get_u16
unfolding get_u16 read_u16_be
get_u16-Takes = fixed_Takes 2 u16_of

pub get_u32-Takes : Takes at_end 4 get_u32
unfolding get_u32 read_u32_be
get_u32-Takes = fixed_Takes 4 u32_of

pub get_u64-Takes : (be : BigEndian) → Takes at_end 8 (get_u64 be)
unfolding get_u64
get_u64-Takes be = fixed_Takes 8 be.read_u64

drop_eight : (bs : Bytes) → drop 4 (drop 4 bs) ≡ drop 8 bs
drop_eight [] = refl
drop_eight (a ∷ []) = refl
drop_eight (a ∷ b ∷ []) = refl
drop_eight (a ∷ b ∷ c ∷ []) = refl
drop_eight (a ∷ b ∷ c ∷ d ∷ bs) = refl

read_span_enough : (bs : Bytes) → 8 ≤ length bs → (a : Span) × (read_span bs ≡ ok (a, drop 8 bs))
unfolding read_span
read_span_enough bs h =
    let (o, p) = get_u32-Takes.enough bs (omega arith) in
    let (l, q) = get_u32-Takes.enough (drop 4 bs) (omega (arith, length-drop 4 bs)) in
    (record { offset = o; len = l }, rw (p, q, drop_eight bs))

pub read_span-Takes : Takes at_end 8 read_span
unfolding read_span
read_span-Takes = record {
  short =
      (Needs-bind 4 4 get_u32 _ get_u32-Takes
        λ o. Needs-bind 4 0 get_u32 _ get_u32-Takes λ l. Needs-nothing _).short;
  enough = read_span_enough;
}

device_fields-Needs : (bs : Bytes) → Needs at_end 34 (device_fields bs)
unfolding device_fields
device_fields-Needs bs = Needs-bind 8 26 _ _ read_span-Takes λ m.
    Needs-bind 8 18 _ _ read_span-Takes λ o. Needs-bind 8 10 _ _ read_span-Takes λ v.
      Needs-bind 8 2 _ _ read_span-Takes
        λ s. Needs-bind 2 0 _ _ get_u16-Takes λ count. Needs-nothing _

storage_fields-Needs : (be : BigEndian) (bs : Bytes) → Needs at_end 46 (storage_fields be bs)
unfolding storage_fields
storage_fields-Needs be bs = Needs-bind 4 42 _ _ get_u32-Takes λ a.
    Needs-bind 2 40 _ _ get_u16-Takes λ b. Needs-bind 2 38 _ _ get_u16-Takes λ c.
      Needs-bind 2 36 _ _ get_u16-Takes λ d. Needs-bind 8 28 _ _ (get_u64-Takes be) λ e.
        Needs-bind 8 20 _ _ (get_u64-Takes be) λ f. Needs-bind 4 16 _ _ get_u32-Takes λ g.
          Needs-bind 8 8 _ _ read_span-Takes
            λ h. Needs-bind 8 0 _ _ read_span-Takes λ i. Needs-nothing _

-- What a parser answers to too few bytes: its own error below `low`, and an I/O error from there on.
abbrev pub TooShort : {A : Type 0} → ℕ → Text → (Bytes → Result PtpIpError A) → Bytes → Type 0
TooShort low message parse bs =
    parse bs ≡ (if ltb (length bs) low then err (protocol_error message) else err at_end)

-- On an answer of fewer than 42 bytes `parse_device_info` fails: with its own message below 24
-- bytes, and with the I/O error of a read past the end from 24 bytes on.
pub parse_device_info_short :
    (bs : Bytes)
    → length bs < 42
    → TooShort 24 (text "Insufficient data length for device info") parse_device_info bs
unfolding parse_device_info
parse_device_info_short bs h =
    rw ((device_fields-Needs bs).short (drop 8 bs) (omega (arith, length-drop 8 bs)))

-- On an answer of fewer than 54 bytes `parse_storage_info` fails: with its own message below 40
-- bytes, and with the I/O error of a read past the end from 40 bytes on.
pub parse_storage_info_short :
    (be : BigEndian) (bs : Bytes)
    → length bs < 54
    → TooShort 40 (text "Insufficient data length for storage info") (parse_storage_info be) bs
unfolding parse_storage_info
parse_storage_info_short be bs h =
    rw ((storage_fields-Needs be bs).short (drop 8 bs) (omega (arith, length-drop 8 bs)))
