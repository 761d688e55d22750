-- ===== src/Foreign/Sessions.antt =====
-- src/session.rs: the functions for C callers. A session behind a pointer is in a cell with its
-- stream; no two calls run at once, so the lock around it has no effect.
pub mod Handles
use pipop_core.Base.{ℕ, Bool, true, false, Option, none, some, Text, Result, ok, err, stuck}
use pipop_core.Utf8.{from_utf8}
use pipop_core.Error.{FromUtf8Error}
use pipop_core.External.{BigEndian, Random}
use pipop_core.Types.{SessionConfig, default_session_config}
use pipop_core.Net.{Wire}
use pipop_core.Net.Dialing.{Tcp, Dialed, unopened, opened}
use pipop_core.Session.{Session, drop}
use pipop_core.Session.Dialing.{connect_to}
use pipop_core.Foreign.Memory.{Foreign, pure, ◌>>=◌, ◌>>◌, place, load, release}
use pipop_core.Foreign.Cells.{Cell, c_string, c_cameras, c_session}
use pipop_core.Foreign.Strings.{string_at, valid_text}

-- A pointer to something else than a session is undefined behaviour.
abbrev pub session_in : Cell → Foreign Cell (Session × Wire)
session_in (c_string bs) h = none
session_in (c_cameras cs) h = none
session_in (c_session s w) h = some ((s, w), h)

unfoldable pub session_at : ℕ → Foreign Cell (Session × Wire)
session_at p = load p >>= session_in

-- `Arc::into_raw`, or a null pointer.
unfoldable pub handed : Dialed Session → Foreign Cell (Option ℕ)
handed (unopened e) = pure none
handed (opened (ok s) w) = place (c_session s w) >>= λ p. pure (some p)
handed (opened (err e) w) = pure none
handed (opened stuck w) = λ h. none

abbrev pub config_with : ℕ → SessionConfig
config_with timeout = record default_session_config { timeout = timeout }

abbrev pub created : Tcp → BigEndian → Random → ℕ → ℕ → Option Text → Foreign Cell (Option ℕ)
created tcp be rng port timeout none = pure none
created tcp be rng port timeout (some ip) =
    handed (connect_to tcp be rng ip port (config_with timeout))

unfoldable pub ptpip_create_session :
    Tcp → BigEndian → Random → Option ℕ → ℕ → ℕ → Foreign Cell (Option ℕ)
ptpip_create_session tcp be rng none port timeout = pure none
ptpip_create_session tcp be rng (some p) port timeout =
    string_at p >>= λ bs. created tcp be rng port timeout (valid_text (from_utf8 bs))

-- The session is dropped. The result is the stream as the drop left it, before it is closed.
unfoldable pub ptpip_close_session : BigEndian → Random → Option ℕ → Foreign Cell (Option Wire)
ptpip_close_session be rng none = pure none
ptpip_close_session be rng (some p) =
    session_at p >>= λ (s, w). release p >>= λ u. pure (some (drop be rng s w).1)

unfoldable pub ptpip_is_connected : Option ℕ → Foreign Cell Bool
ptpip_is_connected none = pure false
ptpip_is_connected (some p) = session_at p >>= λ (s, w). pure s.is_connected

unfoldable pub ptpip_get_session_id : Option ℕ → Foreign Cell ℕ
ptpip_get_session_id none = pure 0
ptpip_get_session_id (some p) = session_at p >>= λ (s, w). pure s.session_id
