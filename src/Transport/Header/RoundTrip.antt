-- ===== src/Transport/Header/RoundTrip.antt =====
-- src/transport.rs: a header that was written is read back.
use pipop_core.Base.{
  ℕ, ◌+◌, ◌*◌, ◌/◌, ◌%◌, ◌^◌, ◌<◌, ◌≡◌, ◌≢◌, refl, ap, ◌∙◌, none, some, List, [], ◌++◌, Bool,
  ==_iff, Bytes, ok, length, length-append, true, false, ◌==◌, if◌then◌else◌, arith,
}
use pipop_core.External.{BigEndian}
use pipop_core.Types.{message_code, data_block}
use pipop_core.Net.{Wire, Arrival}
use pipop_core.Net.Reading.{arriving, fed, read_exact-arriving, arriving-append}
use pipop_core.Net.{pure, ◌>>=◌}
use pipop_core.Utils.{u32_of}
use pipop_core.Utils.Words.{u32_of_lem}
use pipop_core.Transport.Header.{
  PtpIpHeader, cursor_u16, cursor_u32, header_type, header_fields, read_size, from_stream, to_bytes,
  payload_length,
}

abbrev pub header_of : ℕ → ℕ → ℕ → ℕ → PtpIpHeader
header_of t r i n = record {
  message_type = t;
  reserved = r;
  transaction_id = i;
  payload_length = n;
}

module _ (be : BigEndian) where
  pub cursor_u16-write_u16 :
      (n : ℕ) (rest : Bytes) → n < 2 ^ 16 → cursor_u16 be (be.write_u16 n ++ rest) ≡ ok (n, rest)
  unfolding cursor_u16
  cursor_u16-write_u16 n rest h =
      let v : n / 2 ^ 8 * 2 ^ 8 + n % 2 ^ 8 ≡ n = omega arith in
      rw (be.write_u16_lem n h)
        (ap (λ (t : ℕ). ok (t, rest)) (be.read_u16_lem (n / 2 ^ 8) (n % 2 ^ 8) ∙ v))

  pub cursor_u32-write_u32 :
      (n : ℕ) (rest : Bytes) → n < 2 ^ 32 → cursor_u32 be (be.write_u32 n ++ rest) ≡ ok (n, rest)
  unfolding cursor_u32
  cursor_u32-write_u32 n rest h =
      let v : n / 2 ^ 24 * 2 ^ 24
            + n / 2 ^ 16 % 2 ^ 8 * 2 ^ 16
            + n / 2 ^ 8 % 2 ^ 8 * 2 ^ 8
            + n % 2 ^ 8
          ≡ n =
        omega arith in
      rw (be.write_u32_lem n h) (ap (λ (t : ℕ). ok (t, rest)) (be.read_u32_lem _ _ _ _ ∙ v))

  pub length-write_u16 : (n : ℕ) → n < 2 ^ 16 → length (be.write_u16 n) ≡ 2
  length-write_u16 n h = rw (be.write_u16_lem n h)

  pub length-write_u32 : (n : ℕ) → n < 2 ^ 32 → length (be.write_u32 n) ≡ 4
  length-write_u32 n h = rw (be.write_u32_lem n h)

  pub u32_of-write_u32 : (n : ℕ) → n < 2 ^ 32 → u32_of (be.write_u32 n) ≡ n
  u32_of-write_u32 n h =
      let v : n / 2 ^ 24 * 2 ^ 24
            + n / 2 ^ 16 % 2 ^ 8 * 2 ^ 16
            + n / 2 ^ 8 % 2 ^ 8 * 2 ^ 8
            + n % 2 ^ 8
          ≡ n =
        omega arith in
      rw (be.write_u32_lem n h)
        (u32_of_lem _ _ _ _ (omega arith) (omega arith) (omega arith) (omega arith) ∙ v)

  pub payload_length-data :
      (n : ℕ) (rest : List Arrival) (w : Wire)
      → n < 2 ^ 32
      → payload_length (message_code data_block) (fed w (arriving (be.write_u32 n) rest))
        ≡ (ok n, fed w rest)
  unfolding payload_length message_code
  payload_length-data n rest w h =
      rw
        (read_exact-arriving (be.write_u32 n) 4 rest w (length-write_u32 n h), u32_of-write_u32 n h)

  pub payload_length-other :
      (t : ℕ) (w : Wire) → t ≢ message_code data_block → payload_length t w ≡ (ok 0, w)
  unfolding payload_length
  payload_length-other t w h = ground arith

  -- The three fields that every header has.
  abbrev pub front_bytes : ℕ → ℕ → ℕ → Bytes
  front_bytes t r i = be.write_u16 t ++ (be.write_u16 r ++ (be.write_u32 i ++ []))

  -- The last two of them.
  abbrev pub behind_type : ℕ → ℕ → Bytes
  behind_type r i = be.write_u16 r ++ (be.write_u32 i ++ [])

  module _ (t r i : ℕ) (ht : t < 2 ^ 16) (hr : r < 2 ^ 16) (hi : i < 2 ^ 32) where
    header_fields-none : header_fields be none (front_bytes t r i) ≡ ok ((t, r, i), [])
    unfolding header_fields header_type
    header_fields-none =
        rw (cursor_u16-write_u16 t _ ht, cursor_u16-write_u16 r _ hr, cursor_u32-write_u32 i _ hi)

    header_fields-some : header_fields be (some t) (behind_type r i) ≡ ok ((t, r, i), [])
    unfolding header_fields header_type
    header_fields-some = rw (cursor_u16-write_u16 r _ hr, cursor_u32-write_u32 i _ hi)

    length-behind_type : length (behind_type r i) ≡ 6
    length-behind_type = omega (
      arith,
      length-append (be.write_u16 r) (be.write_u32 i ++ []),
      length-append (be.write_u32 i) [],
      length-write_u16 r hr,
      length-write_u32 i hi,
    )

    pub length-front_bytes : length (front_bytes t r i) ≡ 8
    length-front_bytes = omega (
      arith,
      length-append (be.write_u16 t) (behind_type r i),
      length-behind_type,
      length-write_u16 t ht,
    )

    -- After the fields of the front, only the length field is read.
    pub from_stream-none :
        (rest : List Arrival) (w : Wire)
        → from_stream be none (fed w (arriving (front_bytes t r i) rest))
          ≡ (payload_length t >>= λ n. pure (header_of t r i n)) (fed w rest)
    unfolding from_stream read_size
    from_stream-none rest w =
        rw (read_exact-arriving (front_bytes t r i) 8 rest w length-front_bytes, header_fields-none)

    pub from_stream-some :
        (rest : List Arrival) (w : Wire)
        → from_stream be (some t) (fed w (arriving (behind_type r i) rest))
          ≡ (payload_length t >>= λ n. pure (header_of t r i n)) (fed w rest)
    unfolding from_stream read_size
    from_stream-some rest w =
        rw (read_exact-arriving (behind_type r i) 6 rest w length-behind_type, header_fields-some)

  -- The fields fit their widths.
  pub record IsHeader (h : PtpIpHeader) : Type 0 where
    pub type_fits : h.message_type < 2 ^ 16
    pub reserved_fits : h.reserved < 2 ^ 16
    pub id_fits : h.transaction_id < 2 ^ 32
    pub length_fits : h.payload_length < 2 ^ 32

  from_stream-by_type :
      (t r i n : ℕ) (rest : List Arrival) (w : Wire)
      → t < 2 ^ 16
      → r < 2 ^ 16
      → i < 2 ^ 32
      → n < 2 ^ 32
      → (b : Bool) → (t == message_code data_block) ≡ b
      → from_stream be none
          (fed w (arriving (front_bytes t r i) (arriving (if b then be.write_u32 n else []) rest)))
        ≡ (ok (header_of t r i (if b then n else 0)), fed w rest)
  from_stream-by_type t r i n rest w ht hr hi hn true e =
      let d : t ≡ message_code data_block = (==_iff t (message_code data_block)).0 e in
      from_stream-none t r i ht hr hi (arriving (be.write_u32 n) rest) w
      ∙ rw (d, payload_length-data n rest w hn)
  from_stream-by_type t r i n rest w ht hr hi hn false e =
      from_stream-none t r i ht hr hi rest w
      ∙ rw
          (payload_length-other t (fed w rest) (λ d. cc ((==_iff t (message_code data_block)).1 d)))

  pub to_bytes-arriving :
      (h : PtpIpHeader) (rest : List Arrival)
      → arriving (to_bytes be h) rest
        ≡ arriving (front_bytes h.message_type h.reserved h.transaction_id) (
            arriving
              (if h.message_type == message_code data_block
                then be.write_u32 h.payload_length
                else [])
              rest)
  unfolding to_bytes
  to_bytes-arriving h rest = simp arriving-append

  -- A header that fits its widths is read back from the bytes that `to_bytes` made of it, and what
  -- comes behind it stays in the stream. The length field survives in a data block, and reads as 0
  -- in any other packet.
  pub from_stream-to_bytes :
      (h : PtpIpHeader) (rest : List Arrival) (w : Wire)
      → IsHeader h
      → from_stream be none (fed w (arriving (to_bytes be h) rest)) ≡ (
        ok (record h {
          payload_length =
              if h.message_type == message_code data_block then h.payload_length else 0;
        }),
        fed w rest,
      )
  from_stream-to_bytes h rest w v = rw (to_bytes-arriving h rest) (
      from_stream-by_type h.message_type h.reserved h.transaction_id h.payload_length rest w
        v.type_fits v.reserved_fits v.id_fits v.length_fits _ refl)
