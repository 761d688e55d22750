-- ===== src/Foreign/Sessions/Handles.antt =====
-- src/session.rs: the pointer that a C caller gets for a session.
use pipop_core.Base.{ℕ, ◌≡◌, refl, none, some, Text, ok, ◌⊎◌, arith}
use pipop_core.Utf8.{from_utf8}
use pipop_core.Io.{IoError}
use pipop_core.External.{BigEndian, Random}
use pipop_core.Net.{Wire}
use pipop_core.Net.Dialing.{Tcp, Dialed, unopened, opened}
use pipop_core.Net.Dialing.Quiet.{FailsQuietly}
use pipop_core.Session.{Session}
use pipop_core.Session.Dialing.{connect_to, connect_to-FailsQuietly}
use pipop_core.Foreign.Memory.{Memory}
use pipop_core.Foreign.Cells.{Cell, c_string}
use pipop_core.Foreign.Strings.Laws.{string_at_lem}
use pipop_core.Foreign.Sessions.{handed, config_with, ptpip_create_session}

handed_nothing :
    (d : IoError ⊎ Wire) (r : Dialed Session) (h : Memory Cell)
    → FailsQuietly d r
    → handed r h ≡ some (none, h)
unfolding handed
handed_nothing d (unopened e) h f = refl
handed_nothing d (opened r w) h (e, q, o) = rw q refl

-- Where a pointer leads to a string of valid UTF-8, `ptpip_create_session` returns a null pointer for
-- it, on each network, and the memory is as before.
pub ptpip_create_session_null :
    (tcp : Tcp) (be : BigEndian) (rng : Random) (p port timeout : ℕ) (ip : Text) (h : Memory Cell)
    → h.cell p ≡ some (c_string ip)
    → from_utf8 ip ≡ ok ip
    → ptpip_create_session tcp be rng (some p) port timeout h ≡ some (none, h)
unfolding ptpip_create_session
ptpip_create_session_null tcp be rng p port timeout ip h e v =
    rw (string_at_lem p ip h e, v)
      (handed_nothing (tcp.dial ip port) (connect_to tcp be rng ip port (config_with timeout)) h
        (connect_to-FailsQuietly tcp be rng ip port (config_with timeout) (omega arith)))
