-- ===== src/Net/Dialing.antt =====
-- What the program uses of `std::net::TcpStream` to open a connection and to set its options.
pub mod Quiet
use pipop_core.Base.{ℕ, Bool, Option, none, some, Text, Result, ok, err, stuck, ◌≡◌, ◌⊎◌, inl, inr}
use pipop_core.Io.{IoError, ErrorKind, invalid_input}
use pipop_core.Error.{PtpIpError, from_io}
use pipop_core.Net.{Wire, Net}

-- `dial` is `connect((ip, port))`: the stream it opens, with the clock and the count of draws at
-- that time. The other calls succeed with `none`. The timeouts are in seconds, and the documentation
-- says that a timeout of zero is refused.
pub record Tcp : Type 0 where
  pub dial : Text → ℕ → IoError ⊎ Wire
  pub set_read_timeout : ℕ → Option IoError
  pub set_write_timeout : ℕ → Option IoError
  pub set_nodelay : Bool → Option IoError
  pub try_clone : Option IoError
  pub zero_refused : (e : IoError) × (set_read_timeout 0 ≡ some e) × (e.kind ≡ invalid_input)

-- What comes of a function that opens a stream: the stream is there, with what was done on it, or
-- it never was.
pub data Dialed (A : Type 0) : Type 0 where
  unopened : PtpIpError → Dialed A
  opened : Result PtpIpError A → Wire → Dialed A

-- `?` on a call that sets an option.
abbrev pub option : Option IoError → Net PtpIpError (Unit {0})
option none w = (ok tt, w)
option (some e) w = (err (from_io e), w)

-- `?` on `connect`, and the rest of the function on the stream.
abbrev pub on_dial : {A : Type 0} → IoError ⊎ Wire → Net PtpIpError A → Dialed A
on_dial (inl e) m = unopened (from_io e)
on_dial (inr w) m = opened (m w).0 (m w).1
