-- ===== src/Transport/Receive/RoundTrip.antt =====
-- src/transport.rs: packets of each type as the receiver takes them from the stream.
use pipop_core.Base.{
  ℕ, suc, ◌+◌, ◌-◌, ◌*◌, ◌/◌, ◌%◌, ◌^◌, ◌<◌, ◌≡◌, refl, ◌∙◌, List, [], ◌∷◌, Bytes, lt→ltb, le→leb,
  ok, length, arith,
}
use pipop_core.External.{BigEndian}
use pipop_core.Types.{PtpIpPacket, message_code, data_block, response_block, event_block}
use pipop_core.Utils.{u16_of}
use pipop_core.Utils.Words.{u16_of_lem}
use pipop_core.Net.{Wire, Arrival, Net, lift, pure, ◌>>=◌}
use pipop_core.Net.Reading.{arriving, fed, read_exact-arriving, arriving-append}
use pipop_core.Error.{PtpIpError}
use pipop_core.Transport.Header.{payload_length}
use pipop_core.Transport.Header.RoundTrip.{
  front_bytes, behind_type, header_of, from_stream-some, to_bytes-arriving, length-write_u16,
  length-write_u32, payload_length-data, payload_length-other, u32_of-write_u32,
}
use pipop_core.Transport.Send.{send_packet, header_of_packet}
use pipop_core.Transport.Send.Packets.{send_packet_lem, packet_header}
use native.Mathlib.Nat.{mod-eq_of_lt}
use pipop_core.Transport.Receive.{
  recv_packet, block_type, read_payload, payload_of, response_payload, sized_payload, packet_of,
}

-- What `recv_packet` does behind the front of the header.
abbrev receive_rest : ℕ → ℕ → ℕ → Net PtpIpError PtpIpPacket
receive_rest t r i = (payload_length t >>= λ n. pure (header_of t r i n)) >>= λ header.
    lift (block_type header.message_type) >>= λ kind.
    payload_of kind header >>= λ payload. pure (packet_of kind header payload)

minus_four : (n : ℕ) → n + 4 - 4 ≡ n
minus_four n = omega arith

module _ (be : BigEndian) where
  u16_of-write_u16 : (n : ℕ) → n < 2 ^ 16 → u16_of (be.write_u16 n) ≡ n
  u16_of-write_u16 n h =
      let v : n / 2 ^ 8 * 2 ^ 8 + n % 2 ^ 8 ≡ n = omega arith in
      rw (be.write_u16_lem n h) (u16_of_lem _ _ (omega arith) (omega arith) ∙ v)

  recv_packet-front :
      (t r i : ℕ) (rest : List Arrival) (w : Wire)
      → t < 2 ^ 16
      → r < 2 ^ 16
      → i < 2 ^ 32
      → recv_packet be (fed w (arriving (front_bytes be t r i) rest))
        ≡ receive_rest t r i (fed w rest)
  unfolding recv_packet
  recv_packet-front t r i rest w ht hr hi = rw (
    arriving-append (be.write_u16 t) (behind_type be r i) rest,
    read_exact-arriving (be.write_u16 t) 2 (arriving (behind_type be r i) rest) w
        (length-write_u16 be t ht),
    u16_of-write_u16 t ht,
    from_stream-some be t r i ht hr hi rest w,
  )

  read_payload-arriving :
      (bs : Bytes) (rest : List Arrival) (w : Wire)
      → read_payload (length bs) (fed w (arriving bs rest)) ≡ (ok bs, fed w rest)
  unfolding read_payload
  read_payload-arriving [] rest w = refl
  read_payload-arriving (b ∷ bs) rest w = rw (
    lt→ltb 0 (suc (length bs)) (omega arith),
    read_exact-arriving (b ∷ bs) (length (b ∷ bs)) rest w refl,
  )

  -- A data block comes with its length and its payload.
  pub recv_packet-data :
      (i : ℕ) (bs : Bytes) (rest : List Arrival) (w : Wire)
      → i < 2 ^ 32
      → length bs < 2 ^ 32
      → recv_packet be (
          fed w (
            arriving
              (front_bytes be 4 0 i)
              (arriving (be.write_u32 (length bs)) (arriving bs rest))))
        ≡ (ok (record { message_type = data_block; transaction_id = i; payload = bs }), fed w rest)
  unfolding block_type payload_of message_code
  recv_packet-data i bs rest w hi hl =
      recv_packet-front 4 0 i (arriving (be.write_u32 (length bs)) (arriving bs rest)) w
        (omega arith) (omega arith) hi
      ∙ rw (
        payload_length-data be (length bs) (arriving bs rest) w hl,
        read_payload-arriving bs rest w,
      )

  -- `recv_packet` gives back the data block that `send_packet` wrote, and leaves what comes behind
  -- it in the stream, for a transaction id of 32 bits and a payload whose length has 32 bits.
  pub recv_packet-send_packet :
      (i : ℕ) (bs : Bytes) (rest : List Arrival) (sender receiver : Wire)
      → i < 2 ^ 32
      → length bs < 2 ^ 32
      → let packet : PtpIpPacket = record {
        message_type = data_block;
        transaction_id = i;
        payload = bs;
      } in
        recv_packet be (
          fed receiver (
            arriving
              (send_packet be packet (record sender { outgoing = []; writes = [] })).1.outgoing
              rest))
        ≡ (ok packet, fed receiver rest)
  unfolding header_of_packet message_code
  recv_packet-send_packet i bs rest sender receiver hi hl =
      let packet : PtpIpPacket = record {
        message_type = data_block;
        transaction_id = i;
        payload = bs;
      } in
      rw (send_packet_lem be packet (record sender { outgoing = [] })) (
        rw
          (
            arriving-append (packet_header be packet) bs rest,
            to_bytes-arriving be (header_of_packet packet) (arriving bs rest),
            mod-eq_of_lt hl,
          )
          (recv_packet-data i bs rest receiver hi hl))

  -- `recv_packet` takes a response off the stream with its whole payload, where the payload comes
  -- behind a length that counts its own four bytes, and leaves what follows. The fields and the
  -- length fit their widths.
  pub recv_packet-response :
      (r i : ℕ) (body : Bytes) (rest : List Arrival) (w : Wire)
      → r < 2 ^ 16
      → i < 2 ^ 32
      → length body + 4 < 2 ^ 32
      → recv_packet be (
          fed w (
            arriving
              (front_bytes be 5 r i)
              (arriving (be.write_u32 (length body + 4)) (arriving body rest))))
        ≡ (
          ok (record { message_type = response_block; transaction_id = i; payload = body }),
          fed w rest,
        )
  unfolding block_type payload_of response_payload sized_payload message_code
  recv_packet-response r i body rest w hr hi hl =
      recv_packet-front 5 r i (arriving (be.write_u32 (length body + 4)) (arriving body rest)) w
        (omega arith) hr hi
      ∙ rw (
        payload_length-other be 5
            (fed w (arriving (be.write_u32 (length body + 4)) (arriving body rest)))
            (λ e. omega arith),
        read_exact-arriving (be.write_u32 (length body + 4)) 4 (arriving body rest) w
            (length-write_u32 be _ hl),
        u32_of-write_u32 be (length body + 4) hl,
        le→leb 4 (length body + 4) (omega arith),
        minus_four (length body),
        read_payload-arriving body rest w,
      )

  -- An event, with fields that fit their widths, is taken for a packet with no payload, and
  -- whatever the sender wrote behind the header stays in the stream, in front of the next packet.
  pub recv_packet-event :
      (r i : ℕ) (rest : List Arrival) (w : Wire)
      → r < 2 ^ 16
      → i < 2 ^ 32
      → recv_packet be (fed w (arriving (front_bytes be 6 r i) rest))
        ≡ (ok (record { message_type = event_block; transaction_id = i; payload = [] }), fed w rest)
  unfolding block_type payload_of read_payload message_code
  recv_packet-event r i rest w hr hi =
      recv_packet-front 6 r i rest w (omega arith) hr hi
      ∙ rw (payload_length-other be 6 (fed w rest) (λ e. omega arith))
