-- ===== src/Commands/Listener.antt =====
-- src/commands.rs: the thread that `CameraClient::connect` starts to listen for events.
pub mod Silence
pub mod Rivals
use pipop_core.Base.{
  ℕ, zero, suc, some, List, [], ◌∷◌, Bool, true, false, Result, ok, err, stuck, if◌then◌else◌,
}
use pipop_core.Error.{PtpIpError, timeout}
use pipop_core.External.{BigEndian}
use pipop_core.Types.{PtpIpPacket, PtpEvent, SessionConfig, event_block}
use pipop_core.Net.{Wire}
use pipop_core.Transport.Receive.{recv_packet_filtered}
use pipop_core.Commands.Parsing.{parse_event_packet}

-- What one round of the loop does: it sends an event to the channel, goes on without one, or breaks.
pub data Turn : Type 0 where
  sent : PtpEvent → Turn
  ignored : Turn
  stopped : Turn

-- `alive` says whether the receiving end of the channel still exists.
unfoldable pub deliver : Bool → Result PtpIpError PtpEvent → Turn
deliver alive (ok event) = if alive then sent event else stopped
deliver alive (err e) = ignored
deliver alive stuck = stopped

unfoldable pub is_timeout : PtpIpError → Bool
is_timeout timeout = true
is_timeout _ = false

unfoldable pub turn_of : Bool → Result PtpIpError PtpIpPacket → Turn
unfolding deliver is_timeout
turn_of alive (ok packet) = deliver alive (parse_event_packet packet)
turn_of alive (err e) = if is_timeout e then ignored else stopped
turn_of alive stuck = stopped

-- Goes on with the next round, or leaves the loop.
abbrev pub proceed :
    Turn → (List PtpEvent → List PtpEvent × Wire) → List PtpEvent → Wire → List PtpEvent × Wire
proceed (sent e) on events w = on (e ∷ events)
proceed ignored on events w = on events
proceed stopped on events w = (events, w)

module _ (be : BigEndian) where
  unfoldable pub listen_turn : Bool → SessionConfig → Wire → Turn × Wire
  listen_turn alive config w =
      let (r, w') = recv_packet_filtered be (some event_block) config w in (turn_of alive r, w')

  -- So many rounds of the loop: the events that were sent, the latest first, and the connection.
  unfoldable pub listen : ℕ → Bool → SessionConfig → List PtpEvent → Wire → List PtpEvent × Wire
  listen zero alive config events w = (events, w)
  listen (suc rounds) alive config events w =
      let (turn, w') = listen_turn alive config w in
      proceed turn (λ es. listen rounds alive config es w') events w'
