-- ===== src/Commands/Download/Chunk.antt =====
-- src/commands.rs: one chunk of an object, as `get_partial_object` asks for it and receives it.
use pipop_core.Base.{ℕ, ◌+◌, ◌/◌, ◌%◌, ◌^◌, ◌<◌, ◌≡◌, ap, List, [], ◌∷◌, ◌++◌, Bytes, ok, arith}
use mathlib.Core.List.{append-nil, append_assoc}
use pipop_core.External.{BigEndian, Random}
use pipop_core.Types.{SessionConfig, PtpOperationCode, operation_code}
use pipop_core.Net.{Wire, Arrival, generate_transaction_id}
use pipop_core.Net.Reading.{fed}
use pipop_core.Transport.Send.Packets.{writing}
use pipop_core.Commands.Request.{write_params}
use pipop_core.Commands.Request.Laws.{send_command_lem}
use pipop_core.Commands.Response.Blocks.{
  Block, gathered, AllParts, block_arrivals, blocks_arrivals, receive_data_block-blocks,
}
use pipop_core.Commands.Client.Answers.{after_exchange}
use pipop_core.Commands.Download.{get_partial_object}

module _ (be : BigEndian) where
  -- An offset of 64 bits stands in two parameters, the upper half first.
  write_u64-halves :
      (n : ℕ) → n < 2 ^ 64 → be.write_u64 n ≡ be.write_u32 (n / 2 ^ 32) ++ be.write_u32 (n % 2 ^ 32)
  write_u64-halves n h =
      let b7 : n / 2 ^ 32 / 2 ^ 24 ≡ n / 2 ^ 56 = omega arith in
      let b6 : n / 2 ^ 32 / 2 ^ 16 % 2 ^ 8 ≡ n / 2 ^ 48 % 2 ^ 8 = omega arith in
      let b5 : n / 2 ^ 32 / 2 ^ 8 % 2 ^ 8 ≡ n / 2 ^ 40 % 2 ^ 8 = omega arith in
      let b3 : n % 2 ^ 32 / 2 ^ 24 ≡ n / 2 ^ 24 % 2 ^ 8 = omega arith in
      let b2 : n % 2 ^ 32 / 2 ^ 16 % 2 ^ 8 ≡ n / 2 ^ 16 % 2 ^ 8 = omega arith in
      let b1 : n % 2 ^ 32 / 2 ^ 8 % 2 ^ 8 ≡ n / 2 ^ 8 % 2 ^ 8 = omega arith in
      let b0 : n % 2 ^ 32 % 2 ^ 8 ≡ n % 2 ^ 8 = omega arith in
      rw (
        be.write_u64_lem n h,
        be.write_u32_lem (n / 2 ^ 32) (omega arith),
        be.write_u32_lem (n % 2 ^ 32) (omega arith),
        b7,
        b6,
        b5,
        b3,
        b2,
        b1,
        b0,
      )

  abbrev pub chunk_params : ℕ → ℕ → ℕ → List ℕ
  chunk_params object_handle offset length =
      object_handle ∷ offset / 2 ^ 32 ∷ offset % 2 ^ 32 ∷ length ∷ []

  pub chunk_params-bytes :
      (object_handle offset length : ℕ)
      → offset < 2 ^ 64
      → be.write_u32 object_handle ++ (be.write_u64 offset ++ be.write_u32 length)
        ≡ write_params be (chunk_params object_handle offset length)
  unfolding write_params
  chunk_params-bytes object_handle offset length h =
      rw (write_u64-halves offset h, append-nil (be.write_u32 length))
        (ap (λ (t : Bytes). be.write_u32 object_handle ++ t)
          (append_assoc (be.write_u32 (offset / 2 ^ 32)) (be.write_u32 (offset % 2 ^ 32))
            (be.write_u32 length)))

  module _ (rng : Random) where
    -- A chunk of an object whose camera answers with data blocks: `get_partial_object` sends the
    -- handle, the two halves of the offset and the length, and returns the payloads of the blocks
    -- of the drawn transaction, up to an empty one. The numbers have their widths, and no write
    -- fails.
    pub get_partial_object_answered :
        (object_handle offset length : ℕ) (blocks : List Block) (rest : List Arrival)
        (config : SessionConfig) (w : Wire)
        → object_handle < 2 ^ 32
        → offset < 2 ^ 64
        → length < 2 ^ 32
        → AllParts (rng.draw w.drawn) blocks
        → get_partial_object be rng object_handle offset length config (
            fed
              (writing w [])
              (blocks_arrivals be blocks (block_arrivals be (rng.draw w.drawn, []) rest)))
          ≡ (
            ok (gathered (rng.draw w.drawn) blocks),
            after_exchange be rng PtpOperationCode.get_partial_object
                (chunk_params object_handle offset length)
                rest
                w,
          )
    unfolding get_partial_object generate_transaction_id
    get_partial_object_answered object_handle offset length blocks rest config w hh ho hl ha =
        let i = rng.draw w.drawn in
        let ps = chunk_params object_handle offset length in
        let drawn = record w { drawn = w.drawn + 1 } in
        let sent = after_exchange be rng PtpOperationCode.get_partial_object ps rest w in
        rw (
          chunk_params-bytes object_handle offset length ho,
          send_command_lem be (operation_code PtpOperationCode.get_partial_object) i ps config
              (fed drawn (blocks_arrivals be blocks (block_arrivals be (i, []) rest)))
              (hh, (omega arith, (omega arith, (hl, tt)))),
          receive_data_block-blocks be i config (rng.draw_lt w.drawn) blocks rest sent ha,
        )
