-- ===== src/Commands/Request/Progress.antt =====
-- src/commands.rs: sending a command ends.
use pipop_core.Base.{
  ℕ, zero, suc, ◌≤◌, ◌≢◌, [], ◌∷◌, Bytes, stuck, and_then-ne-stuck, length, length-drop, drop,
  arith,
}
use pipop_core.External.{BigEndian}
use pipop_core.Types.{SessionConfig}
use pipop_core.Net.Rules.{Ends, Ends-bind, Ends-lift}
use pipop_core.Transport.Infos.Short.{get_u32-Takes}
use pipop_core.Transport.Send.Progress.{Ends-send_packet_with_retry}
use pipop_core.Commands.Request.{params_loop, parse_params, send_command}
use native.Mathlib.Decide.{dec_lt}

params_loop-ne-stuck : (fuel : ℕ) (bs : Bytes) → length bs ≤ fuel → params_loop fuel bs ≢ stuck
unfolding params_loop
params_loop-ne-stuck zero [] h = λ e. cc
params_loop-ne-stuck zero (b ∷ bs) h = absurd (omega arith)
params_loop-ne-stuck (suc fuel) [] h = λ e. cc
params_loop-ne-stuck (suc fuel) (b ∷ bs) h = elim (dec_lt (length (b ∷ bs)) 4) [
  | yes p ↦ rw (get_u32-Takes.short (b ∷ bs) p) (λ e. cc)
  | no p ↦
      let (n, q) = get_u32-Takes.enough (b ∷ bs) (omega arith) in
      rw q (
        and_then-ne-stuck (params_loop fuel (drop 4 (b ∷ bs))) _
          (params_loop-ne-stuck fuel (drop 4 (b ∷ bs)) (omega (arith, length-drop 4 (b ∷ bs))))
          (λ ps e. cc))
]

module _ (be : BigEndian) where
  pub Ends-send_command :
      (opcode transaction_id : ℕ) (parameters : Bytes) (config : SessionConfig)
      → Ends (send_command be opcode transaction_id parameters config)
  unfolding send_command parse_params
  Ends-send_command opcode transaction_id parameters config =
      Ends-bind _ _
        (Ends-lift (parse_params parameters) (
          and_then-ne-stuck _ _ (params_loop-ne-stuck (length parameters) parameters (omega arith))
            (λ r e. cc)))
        λ ps. Ends-send_packet_with_retry be _ config
