-- ===== src/Commands/Client/Objects.antt =====
-- src/commands.rs: asking the camera for the description of an object.
use pipop_core.Base.{ℕ, ◌+◌, ◌^◌, ◌≤◌, ◌<◌, ◌≡◌, refl, [], ◌∷◌, List, ◌++◌, Bytes, ok, length}
use mathlib.Core.List.{append-nil}
use pipop_core.External.{BigEndian, Random}
use pipop_core.Types.{ObjectInfo, PtpOperationCode}
use pipop_core.Net.{Wire, Arrival}
use pipop_core.Net.Reading.{fed}
use pipop_core.Transport.Send.Packets.{writing}
use pipop_core.Commands.Request.{write_params}
use pipop_core.Commands.Parsing.Objects.{
  ObjectFits, Spans, SpansFit, Found, object_body, parse_object_info_lem,
}
use pipop_core.Commands.Client.{CameraClient, get_object_info}
use pipop_core.Commands.Client.Answers.{
  success_header, success_header-ok, response_bytes, after_exchange, exchange_answered,
}

module _ (be : BigEndian) where
  pub one_param : (p : ℕ) → be.write_u32 p ≡ write_params be (p ∷ [])
  unfolding write_params
  one_param p = rw (append-nil (be.write_u32 p))

  -- A camera that answers the drawn transaction with the description of an object, behind a header
  -- that reports success: `get_object_info` sends its command with the handle and returns the
  -- description, with the strings that `extract_string` finds at the spans of the answer. The
  -- numbers fit their widths, and no write fails.
  pub get_object_info_answered :
      (rng : Random) (client : CameraClient) (r v u a b c d reserved : ℕ) (info : ObjectInfo)
      (s : Spans) (tail : Bytes) (rest : List Arrival) (w : Wire)
      → info.handle < 2 ^ 32
      → r < 2 ^ 16
      → 4 ≤ length tail
      → ObjectFits info
      → SpansFit s
      → Found (success_header v u a b c d ++ object_body info reserved s tail) s info
      → length (success_header v u a b c d ++ object_body info reserved s tail) + 4 < 2 ^ 32
      → get_object_info be rng client info.handle (
          fed (writing w []) (
            response_bytes be r
              (rng.draw w.drawn)
              (success_header v u a b c d ++ object_body info reserved s tail)
              rest))
        ≡ (
          ok info,
          after_exchange be rng PtpOperationCode.get_object_info (info.handle ∷ []) rest w,
        )
  unfolding get_object_info
  get_object_info_answered rng client r v u a b c d reserved info s tail rest w hh hr ht hf hs found
        hl =
      let header = success_header v u a b c d in
      let described = object_body info reserved s tail in
      rw (
        one_param info.handle,
        exchange_answered be rng PtpOperationCode.get_object_info (info.handle ∷ []) r
            (header ++ described) rest client.config w (hh, tt) hr hl
            (success_header-ok (rng.draw w.drawn) v u a b c d described),
        parse_object_info_lem header tail info reserved s refl ht hf hs found,
      )
