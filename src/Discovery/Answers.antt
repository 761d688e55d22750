-- ===== src/Discovery/Answers.antt =====
-- src/discovery.rs: the request, and the answers of cameras.
use pipop_core.Base.{
  ℕ, Option, none, some, [], ◌∷◌, ◌++◌, Bytes, Text, Result, ok, map_err, length, drop, ltb, not,
  ◌==◌, if◌then◌else◌,
}
use mathlib.Core.List.{reverse}
use pipop_core.Io.{Reader, IoError, pure, ◌>>=◌, run}
use pipop_core.Error.{PtpIpError, from_io}
use pipop_core.External.{BigEndian}
use pipop_core.Types.{DiscoveredCamera}
use pipop_core.Utf8.{from_utf8_lossy}
use pipop_core.Transport.Header.{cursor_u16, cursor_u32}
use pipop_core.Discovery.Socket.{SocketAddr, v4, v6}

pub data MessageType : Type 0 where
  discovery_request discovery_response : MessageType

-- `message_type as u16`
unfoldable pub discovery_code : MessageType → ℕ
discovery_code discovery_request = 0x0001
discovery_code discovery_response = 0x0002

abbrev pub front_zeros : Bytes → Bytes
front_zeros [] = []
front_zeros (b ∷ bs) = let rest = front_zeros bs in if b == 0 then rest else b ∷ bs

-- `trim_matches(char::from(0))`
unfoldable pub trim_zeros : Text → Text
trim_zeros t = reverse (front_zeros (reverse (front_zeros t)))

-- The camera of a response, from its fields, its name and the address of its sender.
unfoldable pub camera_from : ℕ → ℕ → ℕ → Bytes → SocketAddr → Option DiscoveredCamera
camera_from vendor_extension_id vendor_extension_version port name_bytes (v4 ip p) = some (record {
  ip_address = ip;
  port = port;
  model_name = trim_zeros (from_utf8_lossy name_bytes);
  vendor_extension_id = vendor_extension_id;
  vendor_extension_version = vendor_extension_version;
})
camera_from vendor_extension_id vendor_extension_version port name_bytes (v6 ip p f s) = none

module _ (be : BigEndian) where
  unfoldable pub build_discovery_request : Bytes
  build_discovery_request =
      be.write_u16 (discovery_code discovery_request)
      ++ (be.write_u16 0x0100 ++ be.write_u32 0x0000_0000)

  -- The fields behind the version. The name begins two bytes behind the port.
  unfoldable pub vendor_fields : Bytes → SocketAddr → Reader IoError (Option DiscoveredCamera)
  vendor_fields buffer src_addr = cursor_u32 be >>= λ vendor_extension_id.
      cursor_u16 be >>= λ vendor_extension_version. cursor_u16 be >>= λ port.
      pure (camera_from vendor_extension_id vendor_extension_version port (drop 14 buffer) src_addr)

  unfoldable pub response_fields : Bytes → SocketAddr → Reader IoError (Option DiscoveredCamera)
  response_fields buffer src_addr = cursor_u16 be >>= λ message_type.
      if not (message_type == discovery_code discovery_response)
      then pure none
      else (cursor_u16 be >>= λ version.
          if not (version == 0x0100) then pure none else vendor_fields buffer src_addr)

  unfoldable pub parse_discovery_response :
      Bytes → SocketAddr → Result PtpIpError (Option DiscoveredCamera)
  parse_discovery_response buffer src_addr =
      if ltb (length buffer) 14
      then ok none
      else map_err from_io (run (response_fields buffer src_addr) buffer)
