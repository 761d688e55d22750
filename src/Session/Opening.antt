-- ===== src/Session/Opening.antt =====
-- src/session.rs: opening a session.
use pipop_core.Base.{◌+◌, ◌%◌, ◌^◌, ◌<◌, ◌≡◌, ◌≢◌, ◌++◌, err, length, length-append, arith}
use pipop_core.External.{BigEndian, Random}
use pipop_core.Types.{SessionConfig, PtpOperationCode, operation_code}
use pipop_core.Net.{Wire, generate_transaction_id}
use pipop_core.Transport.Header.RoundTrip.{length-write_u16, length-write_u32}
use pipop_core.Transport.Infos.Short.{at_end}
use pipop_core.Commands.Request.Laws.{send_command_ragged}
use pipop_core.Session.{connect}
use pipop_core.Session.Handshake.{send_open_session}

-- `connect` fails on every open stream, for a version of 16 bits, with the I/O error of a read
-- past the end. It sends nothing, and all it does is to draw a transaction id.
pub connect_fails :
    (be : BigEndian) (rng : Random) (config : SessionConfig) (w : Wire)
    → config.version < 2 ^ 16
    → connect be rng config w ≡ (err at_end, record w { drawn = w.drawn + 1 })
unfolding connect send_open_session generate_transaction_id
connect_fails be rng config w h =
    let ragged : length (be.write_u16 config.version ++ be.write_u32 0) % 4 ≢ 0 = λ e. omega (
      arith,
      e,
      length-append (be.write_u16 config.version) (be.write_u32 0),
      length-write_u16 be config.version h,
      length-write_u32 be 0 (omega arith),
    ) in
    rw (
      send_command_ragged be (operation_code PtpOperationCode.open_session) (rng.draw w.drawn)
        (be.write_u16 config.version ++ be.write_u32 0) config (record w { drawn = w.drawn + 1 })
        ragged)
