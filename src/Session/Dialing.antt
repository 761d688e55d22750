-- ===== src/Session/Dialing.antt =====
-- src/session.rs: `Session::connect`, with the connection that it opens.
use pipop_core.Base.{ℕ, Text, ◌^◌, ◌<◌, ap}
use pipop_core.External.{BigEndian, Random}
use pipop_core.Types.{SessionConfig}
use pipop_core.Net.{◌>>◌}
use pipop_core.Net.Dialing.{Tcp, Dialed, option, on_dial}
use pipop_core.Net.Dialing.Quiet.{FailsQuietly, on_dial-FailsQuietly, option-IsQuiet}
use pipop_core.Session.{Session, connect}
use pipop_core.Session.Opening.{connect_fails}

unfoldable pub connect_to : Tcp → BigEndian → Random → Text → ℕ → SessionConfig → Dialed Session
connect_to tcp be rng ip port config = on_dial (tcp.dial ip port) do
  option (tcp.set_read_timeout config.timeout)
  option (tcp.set_write_timeout config.timeout)
  connect be rng config

-- `connect` returns a session on no network, for a version of 16 bits, and where it opens a stream,
-- it sends nothing on it.
pub connect_to-FailsQuietly :
    (tcp : Tcp) (be : BigEndian) (rng : Random) (ip : Text) (port : ℕ) (config : SessionConfig)
    → config.version < 2 ^ 16
    → FailsQuietly (tcp.dial ip port) (connect_to tcp be rng ip port config)
unfolding connect_to
connect_to-FailsQuietly tcp be rng ip port config h = on_dial-FailsQuietly (tcp.dial ip port) _ (
    option-IsQuiet (tcp.set_read_timeout config.timeout) _ (
      option-IsQuiet (tcp.set_write_timeout config.timeout) _ λ w.
        let e = connect_fails be rng config w h in (_, ap (λ r. r.0) e, ap (λ r. r.1.outgoing) e)))
