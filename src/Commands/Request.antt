-- ===== src/Commands/Request.antt =====
-- src/commands.rs: sending a command.
pub mod Laws
pub mod Progress
use pipop_core.Base.{ℕ, zero, suc, ◌%◌, ◌^◌, List, [], ◌∷◌, ◌++◌, Bytes, Result, ok, stuck, length}
use pipop_core.Io.{Reader, run}
use pipop_core.Io
use pipop_core.Error.{PtpIpError}
use pipop_core.External.{BigEndian}
use pipop_core.Types.{PtpIpPacket, SessionConfig, command_block}
use pipop_core.Net.{Wire, Net, lift, ◌>>=◌}
use pipop_core.Transport.Infos.{get_u32}
use pipop_core.Transport.Send.{send_packet_with_retry}

pub record PtpCommand : Type 0 where
  pub opcode : ℕ
  pub parameter_count : ℕ
  pub parameters : List ℕ

-- `PtpCommand::new`
unfoldable pub new_command : ℕ → List ℕ → PtpCommand
new_command opcode parameters = record {
  opcode = opcode;
  parameter_count = length parameters % 2 ^ 16;
  parameters = parameters;
}

-- The `while` loop that splits the parameter bytes into numbers. A round takes four bytes, so the
-- number of the bytes is enough fuel.
unfoldable pub params_loop : ℕ → Reader PtpIpError (List ℕ)
params_loop fuel [] = ok ([], [])
params_loop zero (b ∷ bs) = stuck
params_loop (suc fuel) (b ∷ bs) =
    Io.◌>>=◌ get_u32 (λ p. Io.◌>>=◌ (params_loop fuel) (λ ps. Io.pure (p ∷ ps))) (b ∷ bs)

unfoldable pub parse_params : Bytes → Result PtpIpError (List ℕ)
parse_params parameters = run (params_loop (length parameters)) parameters

module _ (be : BigEndian) where
  unfoldable pub write_params : List ℕ → Bytes
  write_params [] = []
  write_params (param ∷ params) = be.write_u32 param ++ write_params params

  -- `PtpCommand::to_bytes`
  unfoldable pub command_bytes : PtpCommand → Bytes
  command_bytes c =
      be.write_u16 0x0000
      ++ (be.write_u16 c.opcode ++ (be.write_u32 c.parameter_count ++ write_params c.parameters))

  unfoldable pub command_packet : ℕ → ℕ → List ℕ → PtpIpPacket
  command_packet opcode transaction_id params = record {
    message_type = command_block;
    transaction_id = transaction_id;
    payload = command_bytes (new_command opcode params);
  }

  unfoldable pub send_command : ℕ → ℕ → Bytes → SessionConfig → Net PtpIpError (Unit {0})
  send_command opcode transaction_id parameters config = do
    params ← lift (parse_params parameters)
    send_packet_with_retry be (command_packet opcode transaction_id params) config
