-- ===== src/Discovery.antt =====
-- src/discovery.rs: the search for cameras on the local network.
pub mod Socket
pub mod Answers
pub mod Parsed
pub mod RoundTrip
pub mod Distinct
pub mod Outcomes
pub mod Found
pub mod Retries
use pipop_core.Base.{
  ℕ, zero, suc, ◌*◌, ◌/◌, Bool, true, false, ◌&&◌, ◌||◌, not, Option, none, some, List, [], ◌∷◌,
  ◌++◌, Bytes, Text, Result, ok, err, stuck, and_then, length, ltb, leb, ◌==◌, if◌then◌else◌,
}
use pipop_core.Io.{Reader, IoError, ErrorKind, would_block, timed_out}
use pipop_core.Error.{PtpIpError, from_io}
use pipop_core.External.{BigEndian}
use pipop_core.Types.{Ipv4Addr, DiscoveredCamera}
use pipop_core.Discovery.Answers.{build_discovery_request, parse_discovery_response}
use pipop_core.Discovery.Socket.{
  SocketAddr, v4, v6, same_ip, same_addr, Air, Radio, Heard, ◌>>=◌, ◌>>◌, pure, lift, out_of_fuel,
  set_up, set_read_timeout, send_to, recv_from, elapsed, now, sleep,
}

-- `PTPIP_BROADCAST_ADDR` and `PTPIP_MULTICAST_ADDR`, parsed.
abbrev pub broadcast_addr : SocketAddr
broadcast_addr = v4 (record { octet_0 = 255; octet_1 = 255; octet_2 = 255; octet_3 = 255 }) 1900

abbrev pub multicast_addr : SocketAddr
multicast_addr = v4 (record { octet_0 = 239; octet_1 = 255; octet_2 = 255; octet_3 = 250 }) 1900

-- `timeout` is in nanoseconds.
pub record DiscoveryConfig : Type 0 where
  pub timeout : ℕ
  pub retry_count : ℕ
  pub interface : Option Text
  pub use_multicast : Bool
  pub test_destinations : Option (List SocketAddr)

-- `impl Default for DiscoveryConfig`
abbrev pub default_discovery_config : DiscoveryConfig
default_discovery_config = record {
  timeout = 5 * 1000000000;
  retry_count = 3;
  interface = none;
  use_multicast = true;
  test_destinations = none;
}

-- The socket is bound alike for each interface.
unfoldable pub create_discovery_socket : DiscoveryConfig → Radio (Unit {0})
create_discovery_socket config = set_up >> (if config.use_multicast then set_up else pure tt)

abbrev usual_destinations : Bool → List SocketAddr
usual_destinations true = broadcast_addr ∷ multicast_addr ∷ []
usual_destinations false = broadcast_addr ∷ []

abbrev destinations_or : Option (List SocketAddr) → List SocketAddr → List SocketAddr
destinations_or none others = others
destinations_or (some dests) others = dests

unfoldable pub get_discovery_destinations : DiscoveryConfig → List SocketAddr
get_discovery_destinations config =
    destinations_or config.test_destinations (usual_destinations config.use_multicast)

-- What the rounds of the search change: the cameras found, and the addresses that were heard.
pub record Search : Type 0 where
  pub cameras : List DiscoveredCamera
  pub seen_addrs : List SocketAddr

unfoldable pub contains : List SocketAddr → SocketAddr → Bool
contains [] addr = false
contains (a ∷ addrs) addr = same_addr a addr || contains addrs addr

-- `cameras.iter().any(|c| c.ip_address == camera.ip_address && c.port == camera.port)`
unfoldable pub is_known : DiscoveredCamera → List DiscoveredCamera → Bool
is_known camera [] = false
is_known camera (c ∷ cs) =
    (same_ip c.ip_address camera.ip_address && c.port == camera.port) || is_known camera cs

unfoldable pub add_camera : Option DiscoveredCamera → List DiscoveredCamera → List DiscoveredCamera
add_camera none cameras = cameras
add_camera (some camera) cameras =
    if is_known camera cameras then cameras else cameras ++ (camera ∷ [])

-- `e.kind() == WouldBlock || e.kind() == TimedOut`
unfoldable pub is_timeout : ErrorKind → Bool
is_timeout would_block = true
is_timeout timed_out = true
is_timeout _ = false

unfoldable pub send_all : Bytes → List SocketAddr → Radio (Unit {0})
send_all packet [] = pure tt
send_all packet (dest ∷ dests) = send_to packet dest >> send_all packet dests

-- The wait between two attempts.
unfoldable pub pause : ℕ → List DiscoveredCamera → Bool → Radio (Unit {0})
pause timeout cameras is_last =
    if is_last
    then pure tt
    else if leb 1 (length cameras)
    then sleep (500 * 1000000)
    else sleep (timeout / 2)

module _ (be : BigEndian) where
  -- A datagram: one from an address that was heard before is passed over.
  unfoldable pub one_datagram : Bytes → SocketAddr → Search → Result PtpIpError Search
  one_datagram bytes src_addr search =
      if contains search.seen_addrs src_addr
      then ok search
      else and_then (parse_discovery_response be bytes src_addr) λ camera. ok (record {
        cameras = add_camera camera search.cameras;
        seen_addrs = src_addr ∷ search.seen_addrs;
      })

  -- What follows a `recv_from`: the next round, or the end of the loop.
  abbrev pub on_heard : Heard → Search → (Search → Radio Search) → Radio Search
  on_heard (ok (bytes, src)) search again = lift (one_datagram bytes src search) >>= again
  on_heard (err e) search again = if is_timeout e.kind then pure search else again search
  on_heard stuck search again = out_of_fuel

  -- The rounds of the inner loop. Each takes what is heard, and behind the last of it the read
  -- timeout ends the loop, so one more round than that is enough.
  unfoldable pub receive_loop : ℕ → ℕ → ℕ → Search → Radio Search
  receive_loop start timeout zero search s = out_of_fuel s
  receive_loop start timeout (suc fuel) search s =
      let round =
        on_heard (recv_from 1024 s).0 search (receive_loop start timeout fuel)
          (recv_from 1024 s).1 in
      if ltb timeout (elapsed start s)
      then (ok search, s)
      else if leb 10 (length search.cameras)
      then (ok search, s)
      else round

  unfoldable pub receive_answers : ℕ → ℕ → Search → Radio Search
  receive_answers start timeout search s =
      receive_loop start timeout (suc (length s.hearings)) search s

  -- The attempts that are left.
  unfoldable pub attempts : Bytes → List SocketAddr → ℕ → ℕ → ℕ → Search → Radio Search
  attempts packet dests start timeout zero search = pure search
  attempts packet dests start timeout (suc left) search =
      send_all packet dests
      >> (receive_answers start timeout search >>= λ search'.
          pause timeout search'.cameras (left == 0)
          >> attempts packet dests start timeout left search')

  unfoldable pub discover_cameras : DiscoveryConfig → Radio (List DiscoveredCamera)
  discover_cameras config = do
    create_discovery_socket config
    set_up
    set_read_timeout config.timeout
    start_time ← now
    found ←
        attempts (build_discovery_request be) (get_discovery_destinations config) start_time
          config.timeout config.retry_count (record { cameras = []; seen_addrs = [] })
    pure found.cameras
