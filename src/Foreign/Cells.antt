-- ===== src/Foreign/Cells.antt =====
-- src/types.rs: what the memory of C callers holds.
use pipop_core.Base.{ℕ, Option, List, Bytes}
use pipop_core.Net.{Wire}
use pipop_core.Types.{Ipv4Addr}
use pipop_core.Session.{Session}

-- `model_name` is a pointer.
pub record CCameraInfo : Type 0 where
  pub ip_address : Ipv4Addr
  pub port : ℕ
  pub model_name : Option ℕ
  pub vendor_id : ℕ

-- A string without its NUL, an array of cameras, or a session with its stream.
pub data Cell : Type 0 where
  c_string : Bytes → Cell
  c_cameras : List CCameraInfo → Cell
  c_session : Session → Wire → Cell
