-- ===== src/Commands/Listener/Silence.antt =====
-- src/commands.rs: the listener sends no event, and a read timeout of another kind ends it.
use pipop_core.Base.{
  ℕ, zero, suc, ◌≡◌, ◌≢◌, refl, some, List, [], Bool, Result, ok, err, stuck, arith,
}
use pipop_core.Error.{PtpIpError}
use pipop_core.External.{BigEndian}
use pipop_core.Types.{PtpIpPacket, PtpEvent, SessionConfig, event_block}
use pipop_core.Net.{Wire}
use pipop_core.Transport.Receive.{recv_packet_filtered}
use pipop_core.Commands.Parsing.{parse_event_packet}
use pipop_core.Commands.Parsing.Events.{received_event_refused}
use pipop_core.Commands.Response.Soundness.{event_typed}
use pipop_core.Commands.Listener.{
  Turn, sent, ignored, stopped, turn_of, proceed, listen_turn, listen,
}

proceed_keeps :
    (t : Turn) (on : List PtpEvent → List PtpEvent × Wire) (events : List PtpEvent) (w : Wire)
    → ((e : PtpEvent) → t ≢ sent e)
    → (on events).0 ≡ events
    → (proceed t on events w).0 ≡ events
proceed_keeps (sent e) on events w h k = absurd (h e refl)
proceed_keeps ignored on events w h k = k
proceed_keeps stopped on events w h k = refl

module _ (be : BigEndian) (alive : Bool) (config : SessionConfig) where
  turn_of_quiet :
      (r : Result PtpIpError PtpIpPacket)
      → ((p : PtpIpPacket) → r ≡ ok p → (x : PtpIpError) × (parse_event_packet p ≡ err x))
      → (e : PtpEvent) → turn_of alive r ≢ sent e
  unfolding turn_of
  turn_of_quiet (ok p) h e q = let (x, k) = h p refl in cc (rw k at q)
  turn_of_quiet (err x) h e q = ground arith
  turn_of_quiet stuck h e q = cc

  listen_turn_quiet : (w : Wire) (e : PtpEvent) → (listen_turn be alive config w).0 ≢ sent e
  unfolding listen_turn
  listen_turn_quiet w = turn_of_quiet (recv_packet_filtered be (some event_block) config w).0 λ p h.
      (_, received_event_refused be (some event_block) config w p h (event_typed be config w p h))

  listen_keeps :
      (rounds : ℕ) (events : List PtpEvent) (w : Wire)
      → (listen be rounds alive config events w).0 ≡ events
  unfolding listen
  listen_keeps zero events w = refl
  listen_keeps (suc rounds) events w =
      proceed_keeps (listen_turn be alive config w).0 _ events (listen_turn be alive config w).1
        (listen_turn_quiet w) (listen_keeps rounds events (listen_turn be alive config w).1)

  -- However long it runs and whatever the camera sends, the listener puts no event into the channel.
  pub listen_silent : (rounds : ℕ) (w : Wire) → (listen be rounds alive config [] w).0 ≡ []
  listen_silent rounds w = listen_keeps rounds [] w
