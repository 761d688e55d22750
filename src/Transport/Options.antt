-- ===== src/Transport/Options.antt =====
-- src/transport.rs: the options of a stream.
use pipop_core.Base.{true}
use pipop_core.Error.{PtpIpError}
use pipop_core.Types.{SessionConfig}
use pipop_core.Net.{Net, ◌>>◌}
use pipop_core.Net.Dialing.{Tcp, option}

unfoldable pub configure_stream : Tcp → SessionConfig → Net PtpIpError (Unit {0})
configure_stream tcp config = do
  option (tcp.set_read_timeout config.timeout)
  option (tcp.set_write_timeout config.timeout)
  option (tcp.set_nodelay true)
