-- ===== src/Commands/Response/Soundness.antt =====
-- src/transport.rs, src/commands.rs: what is known of a packet that these calls return.
use pipop_core.Base.{
  ℕ, zero, suc, ◌-◌, ◌*◌, ◌≤◌, ◌≡◌, ok-injective, Option, some, ok, length, ltb, ◌==◌,
  and_then-eq-ok, true, Bool-cases, inl, inr, ==_iff, arith,
}
use mathlib.Core.Path.{subst}
use pipop_core.External.{BigEndian}
use pipop_core.Types.{
  PtpIpPacket, PtpIpMessageType, SessionConfig, response_block, same_type, operation_code,
  event_block,
}
use pipop_core.Net.{Wire, pure, lift, ◌>>◌}
use pipop_core.Net.Rules.{continue-eq-ok, if_ok}
use pipop_core.Transport.Receive.{recv_packet, is_expected, filter_loop, recv_packet_filtered}
use pipop_core.Commands.Response.{
  response_code, check_code, check_response_error, response_loop, get_response,
}

same_type-eq : (a b : PtpIpMessageType) → same_type a b ≡ true → a ≡ b
unfolding same_type
same_type-eq a b h = ground arith

response_type :
    (packet : PtpIpPacket)
    → is_expected (some response_block) packet.message_type ≡ true
    → packet.message_type ≡ response_block
unfolding is_expected
response_type packet h = same_type-eq packet.message_type response_block h

-- The response answers the transaction and reports success.
pub record IsAnswer (expected_id : ℕ) (packet : PtpIpPacket) : Type 0 where
  pub is_response : packet.message_type ≡ response_block
  pub answers : packet.transaction_id ≡ expected_id
  pub long_enough : 8 ≤ length packet.payload
  pub code_ok : response_code packet.payload ≡ ok 0x2001

check_code_ok : (code : ℕ) {u : Unit {0}} → check_code code ≡ ok u → code ≡ 0x2001
unfolding check_code operation_code
check_code_ok code h = ground arith

check_response_error_ok :
    (packet : PtpIpPacket) {u : Unit {0}}
    → check_response_error packet ≡ ok u
    → (8 ≤ length packet.payload) × (response_code packet.payload ≡ ok 0x2001)
unfolding check_response_error
check_response_error_ok packet h = elim (Bool-cases (ltb (length packet.payload) 8)) [
  | inl short ↦ cc (rw short at h)
  | inr long ↦
      let (code, r, c) = and_then-eq-ok (response_code packet.payload) check_code (rw long at h) in
      (ground arith, rw (check_code_ok code c) at r)
]

module _ (be : BigEndian) where
  filter_loop_sound :
      (fuel start : ℕ) (expected : Option PtpIpMessageType) (config : SessionConfig) (w : Wire)
      (p : PtpIpPacket)
      → (filter_loop be fuel start expected config w).0 ≡ ok p
      → is_expected expected p.message_type ≡ true
  unfolding filter_loop
  filter_loop_sound zero start expected config w p h = cc
  filter_loop_sound (suc fuel) start expected config w p h =
      elim (if_ok (ltb (config.timeout * 1000) (w.clock - start)) _ _ w h) [
        | inl (late, q) ↦ cc
        | inr (in_time, q) ↦
            let (packet, r, t) = continue-eq-ok (recv_packet be w) _ q in
            elim (if_ok (is_expected expected packet.message_type) _ _ (recv_packet be w).1 t) [
              | inl (fits, u) ↦ rw (ok-injective u) at fits
              | inr (other_type, u) ↦
                  filter_loop_sound fuel start expected config (recv_packet be w).1 p u
            ]
      ]

  recv_packet_filtered_sound :
      (expected : Option PtpIpMessageType) (config : SessionConfig) (w : Wire) (p : PtpIpPacket)
      → (recv_packet_filtered be expected config w).0 ≡ ok p
      → is_expected expected p.message_type ≡ true
  unfolding recv_packet_filtered
  recv_packet_filtered_sound expected config w p h =
      filter_loop_sound (suc (length w.incoming)) w.clock expected config w p h

  -- A packet for the event listener is an event.
  pub event_typed :
      (config : SessionConfig) (w : Wire) (p : PtpIpPacket)
      → (recv_packet_filtered be (some event_block) config w).0 ≡ ok p
      → p.message_type ≡ event_block
  unfolding is_expected
  event_typed config w p h =
      same_type-eq p.message_type event_block
        (recv_packet_filtered_sound (some event_block) config w p h)

  accepted :
      (expected_id : ℕ) (packet p : PtpIpPacket) (w : Wire)
      → packet.message_type ≡ response_block
      → packet.transaction_id ≡ expected_id
      → ((lift (check_response_error packet) >> pure packet) w).0 ≡ ok p
      → IsAnswer expected_id p
  accepted expected_id packet p w t i h =
      let (u, c, e) = continue-eq-ok (check_response_error packet, w) (λ _. pure packet) h in
      let (l, k) = check_response_error_ok packet c in
      subst (IsAnswer expected_id) (ok-injective e)
        (record { is_response = t; answers = i; long_enough = l; code_ok = k })

  response_loop_sound :
      (fuel expected_id : ℕ) (config : SessionConfig) (w : Wire) (p : PtpIpPacket)
      → (response_loop be fuel expected_id config w).0 ≡ ok p
      → IsAnswer expected_id p
  unfolding response_loop
  response_loop_sound zero expected_id config w p h = absurd (cc)
  response_loop_sound (suc fuel) expected_id config w p h =
      let received = recv_packet_filtered be (some response_block) config w in
      let (packet, r, t) = continue-eq-ok received _ h in
      let typed = recv_packet_filtered_sound (some response_block) config w packet r in
      elim (if_ok (packet.transaction_id == expected_id) _ _ received.1 t) [
        | inl (same, u) ↦
            accepted expected_id packet p received.1 (response_type packet typed)
              ((==_iff packet.transaction_id expected_id).0 same) u
        | inr (differs, u) ↦ response_loop_sound fuel expected_id config received.1 p u
      ]

  -- A packet that `get_response` returns is a response, to the transaction that was asked about, of
  -- at least eight bytes, and its response code is 0x2001, which means success.
  pub get_response_sound :
      (expected_id : ℕ) (config : SessionConfig) (w : Wire) (p : PtpIpPacket)
      → (get_response be expected_id config w).0 ≡ ok p
      → IsAnswer expected_id p
  unfolding get_response
  get_response_sound expected_id config w p h =
      response_loop_sound (suc (length w.incoming)) expected_id config w p h
