-- ===== src/Examples/Callers.antt =====
-- What C callers do with cameras, strings and sessions.
use pipop_core.Base.{ℕ, ◌<◌, true, Text, ◌≡◌, ◌∙◌, ap, refl, some, none, [], ◌∷◌, Bytes, ok, take}
use pipop_core.Discovery.Socket.{v4, attempted, set_read_timeout, send_to, recv_from, timed}
use pipop_core.Discovery.Answers.{parse_discovery_response}
use pipop_core.Discovery.{
  default_discovery_config, discover_cameras, create_discovery_socket, get_discovery_destinations,
  attempts, send_all, receive_answers, receive_loop, one_datagram, add_camera, is_known, contains,
  pause, is_timeout,
}
use pipop_core.Utf8.{from_utf8}
use pipop_core.Foreign.Memory.{Memory, pos, set}
use pipop_core.Foreign.Cells.{Cell, c_string, c_cameras}
use pipop_core.Foreign.Strings.{has_nul}
use pipop_core.Foreign.Strings.Laws.{handed_over, rust_str_to_c-c_str_to_rust}
use pipop_core.Foreign.Cameras.{ptpip_discover_cameras}
use pipop_core.Foreign.Cameras.Owned.{infos_of, Names}
use pipop_core.Foreign.Cameras.Balance.{
  unwritten, IsBalanced, borrowed, ptpip_discover_cameras-ptpip_free_cameras,
  ptpip_discover_cameras_lem,
}
use pipop_core.Foreign.Sessions.{ptpip_create_session}
use pipop_core.Foreign.Sessions.Handles.{ptpip_create_session_null}
use pipop_core.Examples.Data.{network_order, counting}
use pipop_core.Examples.Connections.{reachable}
use pipop_core.Examples.Searches.{ip, camera, response, answered, whole, read_back}

heard_back :
    parse_discovery_response network_order (take 1024 response) (v4 ip 1900) ≡ ok (some camera)
heard_back =
    ap (λ (bs : Bytes). parse_discovery_response network_order bs (v4 ip 1900)) whole ∙ read_back

found_one : (discover_cameras network_order default_discovery_config answered).0 ≡ ok (camera ∷ [])
unfolding discover_cameras create_discovery_socket get_discovery_destinations attempts send_all
    receive_answers receive_loop one_datagram add_camera is_known contains pause is_timeout
    attempted set_read_timeout send_to recv_from timed
found_one = rw heard_back refl

abbrev empty_memory : Memory Cell
empty_memory = record { next = 5; cell = λ q. none; allocations = [] }

ptpip_discover_cameras-ptpip_free_cameras_example :
    IsBalanced empty_memory (borrowed network_order true true answered empty_memory)
ptpip_discover_cameras-ptpip_free_cameras_example =
    ptpip_discover_cameras-ptpip_free_cameras network_order true true answered empty_memory
      (λ q l. refl)

ptpip_discover_cameras_lem_example :
    (h' : Memory Cell) × (ptpip_discover_cameras network_order true true unwritten answered
        empty_memory
      ≡ some ((pos 0, record { count = some 1; cameras = some (some 5) }), h'))
    × (h'.cell 5 ≡ some (c_cameras (infos_of 6 (camera ∷ []))))
    × Names h'.cell 6 (camera ∷ [])
    × ((q : ℕ) → q < 5 → h'.cell q ≡ none)
ptpip_discover_cameras_lem_example =
    ptpip_discover_cameras_lem network_order unwritten answered camera [] empty_memory found_one
      (λ q l. refl) refl

abbrev host : Text
host = 49 ∷ 48 ∷ 46 ∷ 49 ∷ []

host_valid : from_utf8 host ≡ ok host
unfolding from_utf8
host_valid = refl

rust_str_to_c-c_str_to_rust_example :
    (h' : Memory Cell) × (handed_over host empty_memory ≡ some (some host, h'))
    × ((q : ℕ) → h'.cell q ≡ none)
unfolding has_nul
rust_str_to_c-c_str_to_rust_example =
    rust_str_to_c-c_str_to_rust host empty_memory host_valid (λ q l. refl)

abbrev with_host : Memory Cell
with_host = record empty_memory { cell = set 3 (some (c_string host)) (λ q. none) }

ptpip_create_session_null_example :
    ptpip_create_session reachable network_order counting (some 3) 15740 30 with_host
    ≡ some (none, with_host)
ptpip_create_session_null_example =
    ptpip_create_session_null reachable network_order counting 3 15740 30 host with_host refl
      host_valid
