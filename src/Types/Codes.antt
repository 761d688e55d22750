-- ===== src/Types/Codes.antt =====
-- src/types.rs: the table of operation codes.
use pipop_core.Base.{ℕ, ◌≡◌, ◌↔◌, refl, some, arith}
use pipop_core.Types.{PtpOperationCode, operation_code, opcode_to_enum}

-- `opcode_to_enum` finds every operation by its code.
pub opcode_to_enum-operation_code :
    (op : PtpOperationCode) → opcode_to_enum (operation_code op) ≡ some op
unfolding opcode_to_enum operation_code
opcode_to_enum-operation_code PtpOperationCode.ok = refl
opcode_to_enum-operation_code PtpOperationCode.get_device_info = refl
opcode_to_enum-operation_code PtpOperationCode.open_session = refl
opcode_to_enum-operation_code PtpOperationCode.close_session = refl
opcode_to_enum-operation_code PtpOperationCode.get_storage_ids = refl
opcode_to_enum-operation_code PtpOperationCode.get_storage_info = refl
opcode_to_enum-operation_code PtpOperationCode.get_object_handles = refl
opcode_to_enum-operation_code PtpOperationCode.get_object_info = refl
opcode_to_enum-operation_code PtpOperationCode.get_object = refl
opcode_to_enum-operation_code PtpOperationCode.get_thumb = refl
opcode_to_enum-operation_code PtpOperationCode.delete_object = refl
opcode_to_enum-operation_code PtpOperationCode.move_object = refl
opcode_to_enum-operation_code PtpOperationCode.get_device_prop_value = refl
opcode_to_enum-operation_code PtpOperationCode.set_device_prop_value = refl
opcode_to_enum-operation_code PtpOperationCode.initiate_capture = refl
opcode_to_enum-operation_code PtpOperationCode.get_partial_object = refl
opcode_to_enum-operation_code PtpOperationCode.get_object_metadata = refl
opcode_to_enum-operation_code PtpOperationCode.set_object_metadata = refl

operation_code-opcode_to_enum :
    (n : ℕ) (op : PtpOperationCode) → opcode_to_enum n ≡ some op → operation_code op ≡ n
unfolding opcode_to_enum operation_code
operation_code-opcode_to_enum n op h = ground arith

-- `opcode_to_enum` returns an operation exactly when the number is that operation's code.
pub opcode_to_enum_iff :
    (n : ℕ) (op : PtpOperationCode) → (opcode_to_enum n ≡ some op) ↔ (operation_code op ≡ n)
opcode_to_enum_iff n op =
    (operation_code-opcode_to_enum n op, λ e. rw (← e) (opcode_to_enum-operation_code op))
