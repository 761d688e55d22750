-- ===== src/Discovery/Found.antt =====
-- src/discovery.rs: the cameras that a search returns.
use pipop_core.Base.{
  ℕ, zero, suc, ◌+◌, ◌≤◌, ◌<◌, ◌≡◌, refl, ap, ◌∙◌, Bool, true, false, Option, none, some, List, [],
  ◌∷◌, ◌++◌, All, Bytes, ok, Bool-cases, inl, inr, length, length-append, take, ltb, leb, ◌==◌,
  if◌then◌else◌, arith,
}
use pipop_core.Io.{IoError}
use pipop_core.External.{BigEndian}
use pipop_core.Types.{DiscoveredCamera}
use pipop_core.Discovery.Socket.{
  SocketAddr, Hearing, datagram, failure, Air, Radio, pure, attempted, by_outcome, set_up,
  set_read_timeout, send_to, elapsed, heard, recv_from, timed,
}
use pipop_core.Discovery.Answers.{build_discovery_request, parse_discovery_response}
use pipop_core.Discovery.Parsed.{parse_discovery_response_total}
use pipop_core.Discovery.{
  DiscoveryConfig, create_discovery_socket, get_discovery_destinations, Search, contains, is_known,
  add_camera, is_timeout, send_all, one_datagram, on_heard, receive_loop, receive_answers, pause,
  attempts, discover_cameras,
}
use pipop_core.Discovery.Distinct.{AllDiffer, All-append, AllDiffer-append}
use pipop_core.Discovery.Outcomes.{Brings, next-Brings, if-Brings}

module _ (be : BigEndian) (P : DiscoveredCamera → Type 0) where
  -- The cameras that a datagram gives have the property.
  abbrev pub Gives : Hearing → Type 0
  Gives (datagram t bytes src) =
      (camera : DiscoveredCamera)
      → parse_discovery_response be (take 1024 bytes) src ≡ ok (some camera)
      → P camera
  Gives (failure t e) = Unit {0}

  -- At most ten cameras that differ, each with the property.
  pub record IsGood (cameras : List DiscoveredCamera) : Type 0 where
    pub differ : AllDiffer cameras
    pub few : length cameras ≤ 10
    pub given : All P cameras

  abbrev Good : Search → Air → Type 0
  Good search s = IsGood search.cameras × All Gives s.hearings

  add_camera-new :
      (b : Bool) (camera : DiscoveredCamera) (cameras : List DiscoveredCamera)
      → is_known camera cameras ≡ b
      → IsGood cameras
      → length cameras < 10
      → P camera
      → IsGood (if b then cameras else cameras ++ (camera ∷ []))
  add_camera-new true camera cameras e g l p = g
  add_camera-new false camera cameras e g l p = record {
    differ = AllDiffer-append cameras camera g.differ e;
    few = omega (arith, length-append cameras (camera ∷ []));
    given = All-append P cameras camera g.given p;
  }

  add_camera-IsGood :
      (o : Option DiscoveredCamera) (cameras : List DiscoveredCamera)
      → IsGood cameras
      → length cameras < 10
      → ((camera : DiscoveredCamera) → o ≡ some camera → P camera)
      → IsGood (add_camera o cameras)
  unfolding add_camera
  add_camera-IsGood none cameras g l p = g
  add_camera-IsGood (some camera) cameras g l p =
      add_camera-new (is_known camera cameras) camera cameras refl g l (p camera refl)

  -- A datagram is taken.
  one_datagram-IsGood :
      (bytes : Bytes) (src : SocketAddr) (search : Search)
      → IsGood search.cameras
      → length search.cameras < 10
      → ((camera : DiscoveredCamera)
          → parse_discovery_response be bytes src ≡ ok (some camera)
          → P camera)
      → (search' : Search) × (one_datagram be bytes src search ≡ ok search')
        × IsGood search'.cameras
  unfolding one_datagram
  one_datagram-IsGood bytes src found g l p = elim (Bool-cases (contains found.seen_addrs src)) [
    | inl e ↦ (found, rw e refl, g)
    | inr e ↦
        let (o, q) = parse_discovery_response_total be bytes src in
        (
          record { cameras = add_camera o found.cameras; seen_addrs = src ∷ found.seen_addrs },
          rw (e, q) refl,
          add_camera-IsGood o found.cameras g l (λ camera f. p camera (q ∙ ap ok f)),
        )
  ]

  -- What follows a `recv_from`, where the next round does well.
  on_heard-Good :
      (fuel : ℕ) (hs : List Hearing) (found : Search) (again : Search → Radio Search) (s : Air)
      → s.hearings ≡ hs
      → length hs < suc fuel
      → length found.cameras < 10
      → IsGood found.cameras
      → All Gives hs
      → ((found' : Search) (s' : Air)
          → length s'.hearings < fuel
          → Good found' s'
          → Brings Good (again found' s'))
      → Brings Good (on_heard be (heard 1024 hs s).0 found again (heard 1024 hs s).1)
  unfolding is_timeout timed
  on_heard-Good fuel [] found again s e l c g h k = rw e (g, tt)
  on_heard-Good fuel (datagram t bytes src ∷ hs) found again s e l c g (d, r) k =
      let (found', q, g') = one_datagram-IsGood (take 1024 bytes) src found g c d in
      rw q (k found' (record s { hearings = hs; clock = s.clock + t }) (omega (arith, l)) (g', r))
  on_heard-Good fuel (failure t x ∷ hs) found again s e l c g (d, r) k =
      let s' = record s { hearings = hs; clock = s.clock + t } in
      if-Brings Good (is_timeout x.kind) (pure found) (again found) s' (λ f. (g, r))
        (λ f. k found s' (omega (arith, l)) (g, r))

  receive_loop-Good :
      (start timeout fuel : ℕ) (found : Search) (s : Air)
      → length s.hearings < fuel
      → Good found s
      → Brings Good (receive_loop be start timeout fuel found s)
  unfolding receive_loop recv_from
  receive_loop-Good start timeout zero found s l g = absurd (omega arith)
  receive_loop-Good start timeout (suc fuel) found s l g =
      elim (Bool-cases (ltb timeout (elapsed start s))) [
        | inl e ↦ rw e g
        | inr e ↦ elim (Bool-cases (leb 10 (length found.cameras))) [
          | inl f ↦ rw (e, f) g
          | inr f ↦
              rw (e, f)
                (on_heard-Good fuel s.hearings found (receive_loop be start timeout fuel) s refl l
                  (ground arith) g.0 g.1
                  λ found' s' l' g'. receive_loop-Good start timeout fuel found' s' l' g')
        ]
      ]

  by_outcome-Gives :
      (os : List (Option IoError)) (f : Air → Air) (s : Air)
      → ((s' : Air) → All Gives s'.hearings → All Gives (f s').hearings)
      → All Gives s.hearings
      → Brings (λ u s'. All Gives s'.hearings) (by_outcome os f s)
  by_outcome-Gives [] f s h g = h s g
  by_outcome-Gives (none ∷ os) f s h g = h (record s { failures = os }) g
  by_outcome-Gives (some e ∷ os) f s h g = (e, refl)

  -- A call on the socket leaves what is heard as it is.
  attempted-Gives :
      (f : Air → Air) (s : Air)
      → ((s' : Air) → All Gives s'.hearings → All Gives (f s').hearings)
      → All Gives s.hearings
      → Brings (λ u s'. All Gives s'.hearings) (attempted f s)
  unfolding attempted
  attempted-Gives f s h g = by_outcome-Gives s.failures f s h g

  send_all-Gives :
      (packet : Bytes) (dests : List SocketAddr) (s : Air)
      → All Gives s.hearings
      → Brings (λ u s'. All Gives s'.hearings) (send_all packet dests s)
  unfolding send_all send_to
  send_all-Gives packet [] s g = g
  send_all-Gives packet (dest ∷ dests) s g =
      let Q : Unit {0} → Air → Type 0 = λ u s'. All Gives s'.hearings in
      next-Brings Q Q (send_to packet dest s) _ (attempted-Gives _ s (λ s' h. h) g)
        λ u s' h. send_all-Gives packet dests s' h

  pause-Good :
      (timeout : ℕ) (b : Bool) (found : Search) (s : Air)
      → Good found s
      → Brings (λ u s'. Good found s') (pause timeout found.cameras b s)
  unfolding pause
  pause-Good timeout true found s g = g
  pause-Good timeout false found s g =
      if-Brings (λ u s'. Good found s') (leb 1 (length found.cameras)) _ _ s (λ e. g) (λ e. g)

  attempts-Good :
      (packet : Bytes) (dests : List SocketAddr) (start timeout left : ℕ) (found : Search) (s : Air)
      → Good found s
      → Brings Good (attempts be packet dests start timeout left found s)
  unfolding attempts receive_answers
  attempts-Good packet dests start timeout zero found s g = g
  attempts-Good packet dests start timeout (suc left) found s g =
      next-Brings (λ u s'. All Gives s'.hearings) Good (send_all packet dests s) _
        (send_all-Gives packet dests s g.1)
        λ u s₁ h₁.
          next-Brings Good Good (receive_answers be start timeout found s₁) _
            (receive_loop-Good start timeout (suc (length s₁.hearings)) found s₁ (omega arith)
              (g.0, h₁))
            λ found' s₂ g₂.
              next-Brings (λ u s'. Good found' s') Good
                (pause timeout found'.cameras (left == 0) s₂) _
                (pause-Good timeout (left == 0) found' s₂ g₂)
                λ u' s₃ g₃. attempts-Good packet dests start timeout left found' s₃ g₃

  set_up-Gives :
      (s : Air) → All Gives s.hearings → Brings (λ u s'. All Gives s'.hearings) (set_up s)
  set_up-Gives s g = attempted-Gives (λ s'. s') s (λ s' h. h) g

  create_discovery_socket-Gives :
      (config : DiscoveryConfig) (s : Air)
      → All Gives s.hearings
      → Brings (λ u s'. All Gives s'.hearings) (create_discovery_socket config s)
  unfolding create_discovery_socket
  create_discovery_socket-Gives config s g =
      let Q : Unit {0} → Air → Type 0 = λ u s'. All Gives s'.hearings in
      next-Brings Q Q (set_up s) _ (set_up-Gives s g) λ u s' h.
        if-Brings Q config.use_multicast set_up (pure tt) s' (λ e. set_up-Gives s' h) (λ e. h)

  set_read_timeout-Gives :
      (timeout : ℕ) (s : Air)
      → All Gives s.hearings
      → Brings (λ u s'. All Gives s'.hearings) (set_read_timeout timeout s)
  unfolding set_read_timeout
  set_read_timeout-Gives timeout s g =
      if-Brings (λ u s'. All Gives s'.hearings) (timeout == 0) _ _ s (λ e. (_, refl))
        (λ e. attempted-Gives _ s (λ s' h. h) g)

  -- A search ends, with the error of a call on the socket or with at most ten cameras, no two of
  -- which have the same address and port. What holds of each camera that a datagram to come gives,
  -- holds of each camera that is returned.
  pub discover_cameras-IsGood :
      (config : DiscoveryConfig) (s : Air)
      → All Gives s.hearings
      → Brings (λ cameras s'. IsGood cameras) (discover_cameras be config s)
  unfolding discover_cameras
  discover_cameras-IsGood config s g =
      let Q : Unit {0} → Air → Type 0 = λ u s'. All Gives s'.hearings in
      let R : List DiscoveredCamera → Air → Type 0 = λ cameras s'. IsGood cameras in
      let nothing : IsGood [] = record { differ = tt; few = omega arith; given = tt } in
      next-Brings Q R (create_discovery_socket config s) _
        (create_discovery_socket-Gives config s g)
        λ u s₁ h₁. next-Brings Q R (set_up s₁) _ (set_up-Gives s₁ h₁) λ u' s₂ h₂.
          next-Brings Q R (set_read_timeout config.timeout s₂) _
            (set_read_timeout-Gives config.timeout s₂ h₂)
            λ v s₃ h₃.
              next-Brings Good R
                (attempts be (build_discovery_request be) (get_discovery_destinations config)
                  s₃.clock config.timeout config.retry_count _ s₃)
                _ (attempts-Good _ _ s₃.clock config.timeout config.retry_count _ s₃ (nothing, h₃))
                λ found s₄ g₄. g₄.0
