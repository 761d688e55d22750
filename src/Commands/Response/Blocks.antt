-- ===== src/Commands/Response/Blocks.antt =====
-- src/commands.rs: what `receive_data_block` makes of a sequence of data blocks.
use pipop_core.Base.{
  ℕ, zero, suc, ◌+◌, ◌-◌, ◌*◌, ◌^◌, ◌≤◌, ◌<◌, ◌≡◌, ◌∙◌, refl, ap, sym, true, false, Bool-cases, inl,
  inr, some, List, [], ◌∷◌, ◌++◌, Bytes, ok, length, ltb, ge→ltb, ==_refl, ==_iff, ◌==◌,
  if◌then◌else◌, arith,
}
use mathlib.Core.List.{append_assoc, append-nil}
use pipop_core.External.{BigEndian}
use pipop_core.Types.{SessionConfig, data_block, same_type, message_code}
use pipop_core.Net.{Wire, Arrival, pure}
use pipop_core.Net.Reading.{arriving, fed}
use pipop_core.Transport.Header.RoundTrip.{front_bytes, length-front_bytes}
use pipop_core.Transport.Receive.{recv_packet_filtered, filter_loop, is_expected}
use pipop_core.Transport.Receive.RoundTrip.{recv_packet-data}
use pipop_core.Transport.Send.{is_empty}
use pipop_core.Commands.Response.{data_loop, receive_data_block}

-- A data block: its transaction, and its payload.
abbrev pub Block : Type 0
Block = ℕ × Bytes

-- The payloads of one transaction, one behind the other.
abbrev pub gathered : ℕ → List Block → Bytes
gathered expected_id [] = []
gathered expected_id ((i, bs) ∷ blocks) =
    if i == expected_id then bs ++ gathered expected_id blocks else gathered expected_id blocks

-- A block that does not end the transfer: its numbers fit, and if it belongs to the transaction it
-- is not empty.
abbrev pub IsPart : ℕ → Block → Type 0
IsPart expected_id (i, bs) = (i < 2 ^ 32) × (length bs < 2 ^ 32) × (i ≡ expected_id → 0 < length bs)

abbrev pub AllParts : ℕ → List Block → Type 0
AllParts expected_id [] = Unit {0}
AllParts expected_id (b ∷ blocks) = IsPart expected_id b × AllParts expected_id blocks

not_empty : (bs : Bytes) → 0 < length bs → is_empty bs ≡ false
not_empty [] h = absurd (omega arith)
not_empty (b ∷ bs) h = refl

length-arriving :
    (bs : Bytes) (rest : List Arrival) → length (arriving bs rest) ≡ length bs + length rest
length-arriving [] rest = omega arith
length-arriving (b ∷ bs) rest = omega (arith, length-arriving bs rest)

module _ (be : BigEndian) where
  abbrev pub block_arrivals : Block → List Arrival → List Arrival
  block_arrivals (i, bs) rest =
      arriving (front_bytes be 4 0 i) (arriving (be.write_u32 (length bs)) (arriving bs rest))

  abbrev pub blocks_arrivals : List Block → List Arrival → List Arrival
  blocks_arrivals [] rest = rest
  blocks_arrivals (b ∷ blocks) rest = block_arrivals b (blocks_arrivals blocks rest)

  length-block :
      (i : ℕ) (bs : Bytes) (rest : List Arrival)
      → i < 2 ^ 32
      → length rest < length (block_arrivals (i, bs) rest)
  length-block i bs rest h =
      let payload = arriving bs rest in
      let sized = arriving (be.write_u32 (length bs)) payload in
      omega (
        arith,
        length-arriving bs rest,
        length-arriving (be.write_u32 (length bs)) payload,
        length-arriving (front_bytes be 4 0 i) sized,
        length-front_bytes be 4 0 i (omega arith) (omega arith) h,
      )

  length-blocks :
      (expected_id : ℕ) (blocks : List Block) (rest : List Arrival)
      → AllParts expected_id blocks
      → length blocks ≤ length (blocks_arrivals blocks rest)
  length-blocks expected_id [] rest h = omega arith
  length-blocks expected_id ((i, bs) ∷ blocks) rest h = omega (
    arith,
    length-blocks expected_id blocks rest h.1,
    length-block i bs (blocks_arrivals blocks rest) h.0.0,
  )

  filtered-data :
      (i : ℕ) (bs : Bytes) (rest : List Arrival) (config : SessionConfig) (w : Wire)
      → i < 2 ^ 32
      → length bs < 2 ^ 32
      → recv_packet_filtered be (some data_block) config (fed w (block_arrivals (i, bs) rest))
        ≡ (ok (record { message_type = data_block; transaction_id = i; payload = bs }), fed w rest)
  unfolding recv_packet_filtered filter_loop
  filtered-data i bs rest config w hi hl =
      let in_time : ltb (config.timeout * 1000) (w.clock - w.clock) ≡ false =
        ge→ltb _ _ (omega arith) in
      let fits : is_expected (some data_block) data_block ≡ true =
        unfold is_expected same_type message_code in refl in
      rw (in_time, recv_packet-data be i bs rest w hi hl, fits)

  module _ (expected_id : ℕ) (config : SessionConfig) (hi : expected_id < 2 ^ 32) where
    data_loop-step :
        (fuel i : ℕ) (bs total : Bytes) (rest : List Arrival) (w : Wire)
        → i < 2 ^ 32
        → length bs < 2 ^ 32
        → data_loop be (suc fuel) expected_id config total (fed w (block_arrivals (i, bs) rest))
          ≡ (if i == expected_id
                then (if is_empty bs
                    then pure total
                    else data_loop be fuel expected_id config (total ++ bs))
                else data_loop be fuel expected_id config total)
              (fed w rest)
    unfolding data_loop
    data_loop-step fuel i bs total rest w h l = rw (filtered-data i bs rest config w h l)

    data_loop-end :
        (fuel : ℕ) (total : Bytes) (rest : List Arrival) (w : Wire)
        → 0 < fuel
        → data_loop be fuel expected_id config total (fed w (block_arrivals (expected_id, []) rest))
          ≡ (ok total, fed w rest)
    data_loop-end zero total rest w h = absurd (omega arith)
    data_loop-end (suc fuel) total rest w h =
        rw (data_loop-step fuel expected_id [] total rest w hi (omega arith), ==_refl expected_id)

    data_loop-blocks :
        (blocks : List Block) (fuel : ℕ) (total : Bytes) (rest : List Arrival) (w : Wire)
        → AllParts expected_id blocks
        → length blocks < fuel
        → data_loop be fuel expected_id config total
            (fed w (blocks_arrivals blocks (block_arrivals (expected_id, []) rest)))
          ≡ (ok (total ++ gathered expected_id blocks), fed w rest)
    data_loop-blocks blocks zero total rest w h l = absurd (omega arith)
    data_loop-blocks [] (suc fuel) total rest w h l =
        data_loop-end (suc fuel) total rest w l
        ∙ ap (λ (t : Bytes). (ok t, fed w rest)) (sym (append-nil total))
    data_loop-blocks ((i, bs) ∷ blocks) (suc fuel) total rest w h l =
        let after = blocks_arrivals blocks (block_arrivals (expected_id, []) rest) in
        data_loop-step fuel i bs total after w h.0.0 h.0.1 ∙ elim (Bool-cases (i == expected_id)) [
          | inl same ↦
              let full = not_empty bs (h.0.2 ((==_iff i expected_id).0 same)) in
              rw (same, full, data_loop-blocks blocks fuel (total ++ bs) rest w h.1 (omega arith))
                (ap (λ (t : Bytes). (ok t, fed w rest))
                  (append_assoc total bs (gathered expected_id blocks)))
          | inr other_id ↦
              rw (other_id, data_loop-blocks blocks fuel total rest w h.1 (omega arith))
        ]

    -- `receive_data_block` returns the payloads of the blocks of its transaction, one behind the
    -- other, up to an empty block, and leaves what follows in the stream. Blocks of other
    -- transactions are passed over. The ids and the lengths of the blocks have 32 bits.
    pub receive_data_block-blocks :
        (blocks : List Block) (rest : List Arrival) (w : Wire)
        → AllParts expected_id blocks
        → receive_data_block be expected_id config
            (fed w (blocks_arrivals blocks (block_arrivals (expected_id, []) rest)))
          ≡ (ok (gathered expected_id blocks), fed w rest)
    unfolding receive_data_block
    receive_data_block-blocks blocks rest w h =
        data_loop-blocks blocks _ [] rest w h (
          omega (arith, length-blocks expected_id blocks (block_arrivals (expected_id, []) rest) h))
