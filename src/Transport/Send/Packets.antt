-- ===== src/Transport/Send/Packets.antt =====
-- src/transport.rs: what `send_packet` puts on the wire.
use pipop_core.Base.{
  ℕ, ◌≡◌, refl, ap, ◌∙◌, List, [], ◌∷◌, ◌++◌, Bytes, ok, err, take, if◌then◌else◌,
}
use pipop_core.Io.{IoError}
use pipop_core.Error.{from_io}
use pipop_core.External.{BigEndian}
use pipop_core.Types.{PtpIpPacket}
use pipop_core.Net.{Wire, Writing, refuse, pure, ◌>>◌, question, flush, write_all, write_with}
use pipop_core.Transport.Header.{to_bytes}
use pipop_core.Transport.Send.{is_empty, header_of_packet, send_packet}
use mathlib.Core.List.{append_assoc, append-nil}

-- The same state, with other outcomes of the coming writes.
abbrev pub writing : Wire → List Writing → Wire
writing w outcomes = record w { writes = outcomes }

-- The second half of `send_packet`.
send_payload :
    (bs : Bytes) (w : Wire)
    → ((if is_empty bs then pure tt else question (write_all bs)) >> question flush) (writing w [])
      ≡ (ok tt, record w { outgoing = w.outgoing ++ bs; writes = [] })
unfolding write_all write_with
send_payload [] w = rw append-nil
send_payload (b ∷ bs) w = refl

module _ (be : BigEndian) (packet : PtpIpPacket) where
  -- The bytes of a packet: those of its header, and the payload.
  abbrev pub packet_header : Bytes
  packet_header = to_bytes be (header_of_packet packet)

  abbrev pub packet_bytes : Bytes
  packet_bytes = packet_header ++ packet.payload

  -- With no failing write, the bytes of the packet are added to the output, and nothing else changes.
  pub send_packet_lem :
      (w : Wire)
      → send_packet be packet (writing w [])
        ≡ (ok tt, record w { outgoing = w.outgoing ++ packet_bytes; writes = [] })
  unfolding send_packet write_all write_with
  send_packet_lem w =
      send_payload packet.payload (record w { outgoing = w.outgoing ++ packet_header })
      ∙ ap (λ (t : Bytes). (ok tt, record w { outgoing = t; writes = [] }))
          (append_assoc w.outgoing packet_header packet.payload)

  -- A failing first write leaves a part of the header on the wire.
  pub send_packet_refused :
      (w : Wire) (k : ℕ) (e : IoError) (outcomes : List Writing)
      → send_packet be packet (writing w (refuse k e ∷ outcomes)) ≡ (
        err (from_io e),
        record w { outgoing = w.outgoing ++ take k packet_header; writes = outcomes },
      )
  unfolding send_packet write_all write_with
  send_packet_refused w k e outcomes = refl
