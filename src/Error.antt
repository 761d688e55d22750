-- ===== src/Error.antt =====
-- src/error.rs: the error type, its conversions and its text.
use pipop_core.Base.{ℕ, Option, none, some, ◌++◌, Text, text, decimal, hex}
use pipop_core.Io.{ErrorKind, IoError, timed_out}

-- `std::net::AddrParseError`, by the text that it displays.
pub record AddrParseError : Type 0 where
  pub message : Text

-- `std::string::FromUtf8Error`: the length of the valid front, and that of the invalid sequence
-- behind it, which is `none` where the input ends inside a character.
pub record FromUtf8Error : Type 0 where
  pub valid_up_to : ℕ
  pub error_len : Option ℕ

pub data PtpIpError : Type 0 where
  io : IoError → PtpIpError
  addr_parse : AddrParseError → PtpIpError
  protocol_error : Text → PtpIpError
  device_error : ℕ → Text → PtpIpError
  session_error : Text → PtpIpError
  string_encoding : FromUtf8Error → PtpIpError
  invalid_resume_data : PtpIpError
  download_cancelled : PtpIpError
  timeout : PtpIpError
  other : Text → PtpIpError

-- The `Display` of `FromUtf8Error`, by its documentation.
utf8_error_text : FromUtf8Error → Text
utf8_error_text e = elim e.error_len [
  | some n ↦
      text "invalid utf-8 sequence of "
      ++ (decimal n ++ (text " bytes from index " ++ decimal e.valid_up_to))
  | none ↦ text "incomplete utf-8 byte sequence from index " ++ decimal e.valid_up_to
]

-- `impl fmt::Display for PtpIpError`
unfoldable pub display : PtpIpError → Text
unfolding utf8_error_text
display (io e) = text "IO error: " ++ e.message
display (addr_parse e) = text "Address parsing error: " ++ e.message
display (protocol_error msg) = text "Protocol error: " ++ msg
display (device_error code message) =
    text "Device error (0x" ++ (hex 4 code ++ (text "): " ++ message))
display (session_error msg) = text "Session error: " ++ msg
display (string_encoding e) = text "String encoding error: " ++ utf8_error_text e
display invalid_resume_data = text "Invalid resume data"
display download_cancelled = text "Download cancelled"
display timeout = text "Operation timed out"
display (other msg) = text "Error: " ++ msg

-- The `&dyn Error` that `source` returns.
pub data Cause : Type 0 where
  io_cause : IoError → Cause
  addr_cause : AddrParseError → Cause
  utf8_cause : FromUtf8Error → Cause

-- `impl Error for PtpIpError`
unfoldable pub source : PtpIpError → Option Cause
source (io e) = some (io_cause e)
source (addr_parse e) = some (addr_cause e)
source (string_encoding e) = some (utf8_cause e)
source _ = none

from_kind : ErrorKind → IoError → PtpIpError
from_kind timed_out err = timeout
from_kind _ err = io err

-- `impl From<io::Error> for PtpIpError`
unfoldable pub from_io : IoError → PtpIpError
unfolding from_kind
from_io err = from_kind err.kind err

-- `impl From<AddrParseError> for PtpIpError`
unfoldable pub from_addr_parse : AddrParseError → PtpIpError
from_addr_parse err = addr_parse err

-- `impl From<FromUtf8Error> for PtpIpError`
unfoldable pub from_utf8_error : FromUtf8Error → PtpIpError
from_utf8_error err = string_encoding err
