-- ===== src/Session/Parsing.antt =====
-- src/session.rs: the parser of the list of storages that `Session` has of its own.
use pipop_core.Base.{
  ℕ, zero, suc, ◌+◌, ◌*◌, List, [], ◌∷◌, Bytes, Result, ok, err, length, take, drop, ltb,
  if◌then◌else◌, text, bit_or, and_then,
}
use pipop_core.Error.{PtpIpError, protocol_error}
use pipop_core.Utils.{u32_of, shl}

-- `(b[0] as usize) << 8 | b[1] as usize`
unfoldable pub count_of : Bytes → ℕ
count_of (a ∷ b ∷ _) = bit_or (shl 64 a 8) b
count_of _ = 0

-- The rounds of the loop of `parse_storage_ids` from `i` on, so many of them.
unfoldable pub storage_loop : ℕ → ℕ → Bytes → Result PtpIpError (List ℕ)
storage_loop zero i bytes = ok []
storage_loop (suc left) i bytes =
    let start = 2 + i * 4 in
    let rest = storage_loop left (i + 1) bytes in
    if ltb (length bytes) (start + 4)
    then err (protocol_error (text "存储 ID 数据不完整"))
    else and_then rest (λ ids. ok (u32_of (take 4 (drop start bytes)) ∷ ids))

unfoldable pub parse_storage_ids : Bytes → Result PtpIpError (List ℕ)
parse_storage_ids bytes =
    if ltb (length bytes) 2
    then err (protocol_error (text "存储 ID 列表数据长度不足"))
    else storage_loop (count_of bytes) 0 bytes
