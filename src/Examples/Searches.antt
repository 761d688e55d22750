-- ===== src/Examples/Searches.antt =====
-- Searches for a camera that answers, and for one that answers late.
use pipop_core.Base.{
  ◌≡◌, ◌∙◌, sym, ap, refl, Option, Result, some, none, true, All, [], ◌∷◌, ◌++◌, Bytes, ok, take,
  arith,
}
use pipop_core.Error.{PtpIpError}
use pipop_core.Utils.{write_u16_be, write_u32_be}
use pipop_core.Types.{Ipv4Addr, DiscoveredCamera}
use pipop_core.Discovery.Socket.{v4, v6, datagram, failure, Air, timed}
use pipop_core.Discovery.Answers.{parse_discovery_response}
use pipop_core.Discovery.RoundTrip.{nuls, put_answer, parse_discovery_response-put_answer}
use pipop_core.Discovery.Outcomes.{Brings}
use pipop_core.Discovery.Found.{Gives, IsGood, discover_cameras-IsGood}
use pipop_core.Discovery.Retries.{discover_cameras_deaf}
use pipop_core.Discovery.{is_timeout, default_discovery_config, discover_cameras}
use pipop_core.Examples.Data.{network_order}

abbrev pub ip : Ipv4Addr
ip = record { octet_0 = 192; octet_1 = 168; octet_2 = 1; octet_3 = 100 }

abbrev pub camera : DiscoveredCamera
camera = record {
  ip_address = ip;
  port = 15740;
  model_name = 90 ∷ 55 ∷ [];
  vendor_extension_id = 1;
  vendor_extension_version = 0x0100;
}

abbrev pub response : Bytes
response = put_answer network_order camera 0 0 (camera.model_name ++ nuls 1)

parse_discovery_response-put_answer_example :
    (parse_discovery_response network_order response (v4 ip 1900) ≡ ok (some camera))
    × (parse_discovery_response network_order response (v6 (1 ∷ []) 1900 0 0) ≡ ok none)
parse_discovery_response-put_answer_example =
    parse_discovery_response-put_answer network_order camera 0 0 1 1900 0 0 (1 ∷ []) (omega arith)
      (omega arith) (omega arith) ((omega arith, omega arith), ((omega arith, omega arith), tt))

abbrev pub answered : Air
answered = record {
  hearings = datagram 20 response (v4 ip 1900) ∷ [];
  failures = [];
  sent = [];
  read_timeout = none;
  clock = 0;
}

pub whole : take 1024 response ≡ response
unfolding put_answer write_u16_be write_u32_be
whole = refl

some_same :
    (a b : DiscoveredCamera)
    → ◌≡◌ {A = Result PtpIpError (Option DiscoveredCamera)} (ok (some a)) (ok (some b))
    → a ≡ b
some_same a b h = cc

pub read_back : parse_discovery_response network_order response (v4 ip 1900) ≡ ok (some camera)
read_back =
    (parse_discovery_response-put_answer network_order camera 0 0 1 1900 0 0 [] (omega arith)
      (omega arith) (omega arith) ((omega arith, omega arith), ((omega arith, omega arith), tt))).0

-- The datagram gives the camera, and no other.
given :
    (c : DiscoveredCamera)
    → parse_discovery_response network_order (take 1024 response) (v4 ip 1900) ≡ ok (some c)
    → c ≡ camera
given c h = some_same c camera (
    sym h
    ∙ ap (λ (bs : Bytes). parse_discovery_response network_order bs (v4 ip 1900)) whole
    ∙ read_back)

gives : All (Gives network_order (λ c. c ≡ camera)) answered.hearings
gives = (given, tt)

discover_cameras-IsGood_example :
    Brings
      (λ cameras s. IsGood network_order (λ c. c ≡ camera) cameras)
      (discover_cameras network_order default_discovery_config answered)
discover_cameras-IsGood_example =
    discover_cameras-IsGood network_order (λ c. c ≡ camera) default_discovery_config answered gives

-- The camera answers after the first wait.
abbrev late : Air
late = record answered {
  hearings = failure 5000000000 timed ∷ datagram 20 response (v4 ip 1900) ∷ [];
}

timed_is_timeout : is_timeout timed.kind ≡ true
unfolding is_timeout timed
timed_is_timeout = refl

discover_cameras_deaf_example :
    (discover_cameras network_order default_discovery_config late).0 ≡ ok []
discover_cameras_deaf_example =
    discover_cameras_deaf network_order default_discovery_config 5000000000 timed
      (datagram 20 response (v4 ip 1900) ∷ []) late refl refl timed_is_timeout (omega arith)
      (omega arith)
