-- ===== src/Commands/Parsing/Events.antt =====
-- src/commands.rs, src/transport.rs: events, as the receiver hands them to the parser.
use pipop_core.Base.{
  ℕ, zero, suc, ◌-◌, ◌*◌, ◌^◌, ◌≤◌, ◌<◌, ◌≡◌, refl, Option, some, List, [], ◌∷◌, ◌++◌, Bytes, ok,
  err, length, ltb, inl, inr, ok-injective, All, ge→ltb, text, arith,
}
use mathlib.Core.Path.{subst}
use pipop_core.External.{BigEndian}
use pipop_core.Error.{protocol_error}
use pipop_core.Types.{
  PtpIpPacket, PtpIpMessageType, PtpEvent, EventType, SessionConfig, event_block, event_code,
}
use pipop_core.Utils.{u16_of, write_u16_be, write_u32_be}
use pipop_core.Net.{Wire, question, read_exact}
use pipop_core.Net.Rules.{continue-eq-ok, if_ok}
use pipop_core.Transport.Header.{PtpIpHeader, from_stream}
use pipop_core.Transport.Infos.Devices.{get_u16-write, get_u32-write}
use pipop_core.Transport.Receive.{
  block_type, read_payload, payload_of, is_expected, recv_packet, filter_loop, recv_packet_filtered,
}
use pipop_core.Commands.Parsing.{read_handles, event_type_of, event_fields, parse_event_packet}

-- The parameters of an event as they stand in its payload.
unfoldable pub put_handles : List ℕ → Bytes → Bytes
put_handles [] rest = rest
put_handles (x ∷ xs) rest = write_u32_be x ++ put_handles xs rest

pub read_handles-put_handles :
    (xs : List ℕ) (rest : Bytes)
    → All (λ x. x < 2 ^ 32) xs
    → read_handles (length xs) (put_handles xs rest) ≡ ok (xs, rest)
unfolding read_handles put_handles
read_handles-put_handles [] rest h = refl
read_handles-put_handles (x ∷ xs) rest h =
    rw (get_u32-write x (put_handles xs rest) h.0, read_handles-put_handles xs rest h.1)

event_type_of-event_code : (t : EventType) → event_type_of (event_code t) ≡ ok t
unfolding event_type_of event_code
event_type_of-event_code t = ground arith

event_code-lt : (t : EventType) → event_code t < 2 ^ 16
unfolding event_code
event_code-lt t = ground arith

-- The payload that describes an event, with what comes behind it.
unfoldable pub put_event : PtpEvent → Bytes → Bytes
put_event e rest =
    write_u16_be (event_code e.event_type)
    ++ (write_u16_be (length e.parameters) ++ put_handles e.parameters rest)

-- `parse_event_packet` reads an event back from a packet with its transaction id and its payload,
-- if that has at least six bytes. The parameters have 32 bits, and their number 16. What comes
-- behind them is ignored.
pub parse_event_packet-put_event :
    (packet : PtpIpPacket) (e : PtpEvent) (rest : Bytes)
    → packet.payload ≡ put_event e rest
    → packet.transaction_id ≡ e.transaction_id
    → 6 ≤ length packet.payload
    → length e.parameters < 2 ^ 16
    → All (λ x. x < 2 ^ 32) e.parameters
    → parse_event_packet packet ≡ ok e
unfolding parse_event_packet event_fields put_event
parse_event_packet-put_event packet e rest hp ht hl hc ha = rw (
  ge→ltb (length packet.payload) 6 hl,
  hp,
  get_u16-write (event_code e.event_type) _ (event_code-lt e.event_type),
  get_u16-write (length e.parameters) _ hc,
  read_handles-put_handles e.parameters rest ha,
  event_type_of-event_code e.event_type,
  ht,
)

-- The payload of an event packet is empty.
abbrev EmptyEvent : PtpIpPacket → Type 0
EmptyEvent p = p.message_type ≡ event_block → p.payload ≡ []

payload_of_event :
    (kind : PtpIpMessageType) (header : PtpIpHeader) (w : Wire) (payload : Bytes)
    → (payload_of kind header w).0 ≡ ok payload
    → kind ≡ event_block
    → payload ≡ []
unfolding payload_of read_payload
payload_of_event kind header w payload h e = cc (rw e at h)

module _ (be : BigEndian) where
  recv_packet-EmptyEvent : (w : Wire) (p : PtpIpPacket) → (recv_packet be w).0 ≡ ok p → EmptyEvent p
  unfolding recv_packet
  recv_packet-EmptyEvent w p h =
      let (bs, h₁, k₁) = continue-eq-ok (question (read_exact 2) w) _ h in
      let w₁ = (question (read_exact 2) w).1 in
      let received = from_stream be (some (u16_of bs)) w₁ in
      let (header, h₂, k₂) = continue-eq-ok received _ k₁ in
      let (kind, h₃, k₃) = continue-eq-ok (block_type header.message_type, received.1) _ k₂ in
      let (payload, h₄, k₄) = continue-eq-ok (payload_of kind header received.1) _ k₃ in
      subst EmptyEvent (ok-injective k₄) (payload_of_event kind header received.1 payload h₄)

  filter_loop-EmptyEvent :
      (fuel start : ℕ) (expected : Option PtpIpMessageType) (config : SessionConfig) (w : Wire)
      (p : PtpIpPacket)
      → (filter_loop be fuel start expected config w).0 ≡ ok p
      → EmptyEvent p
  unfolding filter_loop
  filter_loop-EmptyEvent zero start expected config w p h = absurd (cc)
  filter_loop-EmptyEvent (suc fuel) start expected config w p h =
      elim (if_ok (ltb (config.timeout * 1000) (w.clock - start)) _ _ w h) [
        | inl (late, q) ↦ absurd (cc)
        | inr (in_time, q) ↦
            let (packet, r, t) = continue-eq-ok (recv_packet be w) _ q in
            elim (if_ok (is_expected expected packet.message_type) _ _ (recv_packet be w).1 t) [
              | inl (fits, u) ↦
                  subst EmptyEvent (ok-injective u) (recv_packet-EmptyEvent w packet r)
              | inr (other_type, u) ↦
                  filter_loop-EmptyEvent fuel start expected config (recv_packet be w).1 p u
            ]
      ]

  -- Every event packet that `recv_packet_filtered` returns, whatever the camera sent, is refused
  -- by `parse_event_packet` as too short.
  pub received_event_refused :
      (expected : Option PtpIpMessageType) (config : SessionConfig) (w : Wire) (p : PtpIpPacket)
      → (recv_packet_filtered be expected config w).0 ≡ ok p
      → p.message_type ≡ event_block
      → parse_event_packet p
        ≡ err (protocol_error (text "Insufficient data length for event packet"))
  unfolding recv_packet_filtered parse_event_packet
  received_event_refused expected config w p h e =
      rw (filter_loop-EmptyEvent (suc (length w.incoming)) w.clock expected config w p h e)
