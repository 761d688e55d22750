-- ===== src/Discovery/Retries.antt =====
-- src/discovery.rs: what the attempts behind the first one hear.
use pipop_core.Base.{
  ℕ, zero, suc, ◌+◌, ◌-◌, ◌*◌, ◌/◌, ◌≤◌, ◌<◌, ◌≡◌, refl, ap, ◌∙◌, Bool, true, false, some, List, [],
  ◌∷◌, ◌++◌, Bytes, ok, err, length, ltb, leb, ◌==◌, if◌then◌else◌, arith, Bool-cases, inl, inr,
  lt→ltb,
}
use pipop_core.Io.{IoError}
use pipop_core.External.{BigEndian}
use pipop_core.Types.{DiscoveredCamera}
use pipop_core.Discovery.Socket.{
  SocketAddr, Hearing, failure, Air, next, pure, by_outcome, heard, attempted, set_up,
  set_read_timeout, send_to, recv_from,
}
use pipop_core.Discovery.Answers.{build_discovery_request}
use pipop_core.Discovery.{
  DiscoveryConfig, create_discovery_socket, get_discovery_destinations, Search, is_timeout,
  send_all, receive_loop, receive_answers, pause, attempts, discover_cameras,
}

-- The calls on the socket go well from here on, and what is heard and when is as in `s`.
abbrev Like : Air → Air → Type 0
Like s t = (t.failures ≡ []) × (t.hearings ≡ s.hearings) × (t.clock ≡ s.clock)

attempted_fine : (f : Air → Air) (s : Air) → s.failures ≡ [] → attempted f s ≡ (ok tt, f s)
unfolding attempted
attempted_fine f s h = ap (λ os. by_outcome os f s) h

send_all_fine :
    (packet : Bytes) (dests : List SocketAddr) (s : Air)
    → s.failures ≡ []
    → (t : Air) × (send_all packet dests s ≡ (ok tt, t)) × Like s t
unfolding send_all send_to
send_all_fine packet [] s h = (s, refl, (h, refl, refl))
send_all_fine packet (dest ∷ dests) s h =
    let s₁ : Air = record s { sent = s.sent ++ ((packet, dest) ∷ []) } in
    let (t, q, l) = send_all_fine packet dests s₁ h in
    (t, ap (λ p. next p.0 (λ u. send_all packet dests) p.1) (attempted_fine _ s h) ∙ q, l)

-- A wait goes well, and takes its time.
pause_fine :
    (timeout : ℕ) (cameras : List DiscoveredCamera) (b : Bool) (s : Air)
    → (t : Air) × (pause timeout cameras b s ≡ (ok tt, t))
      × (t.failures ≡ s.failures)
      × (t.hearings ≡ s.hearings)
      × (s.clock ≤ t.clock)
      × (b ≡ false → 2 ≤ timeout → s.clock < t.clock)
unfolding pause
pause_fine timeout cameras true s = (s, refl, refl, refl, omega arith, λ e. cc)
pause_fine timeout [] false s =
    (record s { clock = s.clock + timeout / 2 }, refl, refl, refl, omega arith, λ e h. omega arith)
pause_fine timeout (c ∷ cs) false s =
    let e : leb 1 (length (c ∷ cs)) ≡ true = ground arith in
    (
      record s { clock = s.clock + 500 * 1000000 },
      rw e refl,
      refl,
      refl,
      omega arith,
      λ e' h. omega arith,
    )

module _ (be : BigEndian) where
  receive_answers_late :
      (start timeout : ℕ) (found : Search) (s : Air)
      → timeout < s.clock - start
      → receive_answers be start timeout found s ≡ (ok found, s)
  unfolding receive_answers receive_loop
  receive_answers_late start timeout found s h = rw (lt→ltb timeout (s.clock - start) h) refl

  -- The timeout is over: the attempts that are left find nothing more.
  attempts_late :
      (packet : Bytes) (dests : List SocketAddr) (start timeout left : ℕ) (found : Search) (s : Air)
      → s.failures ≡ []
      → timeout < s.clock - start
      → (attempts be packet dests start timeout left found s).0 ≡ ok found
  unfolding attempts
  attempts_late packet dests start timeout zero found s h l = refl
  attempts_late packet dests start timeout (suc left) found s h l =
      let (t, q, (f, g, c)) = send_all_fine packet dests s h in
      let r = receive_answers_late start timeout found t (omega (arith, c)) in
      let (t', q', f', g', m, n) = pause_fine timeout found.cameras (left == 0) t in
      rw (q, r, q')
        (attempts_late packet dests start timeout left found t' (f' ∙ f) (omega (arith, c, m)))

  -- A first wait that runs into the read timeout.
  receive_answers_timeout :
      (start timeout t : ℕ) (e : IoError) (hs : List Hearing) (found : Search) (s : Air)
      → s.clock ≡ start
      → s.hearings ≡ failure t e ∷ hs
      → is_timeout e.kind ≡ true
      → found.cameras ≡ []
      → receive_answers be start timeout found s
        ≡ (ok found, record s { hearings = hs; clock = s.clock + t })
  unfolding receive_answers receive_loop recv_from
  receive_answers_timeout start timeout t e hs found s i h k c =
      let r : heard 1024 s.hearings s ≡ (err e, record s { hearings = hs; clock = s.clock + t }) =
        ap (λ x. heard 1024 x s) h in
      let l : ltb timeout (s.clock - start) ≡ false = ground arith in
      let n : leb 10 (length found.cameras) ≡ false = rw c refl in rw (l, n, r, k) refl

  -- A first attempt that runs into the read timeout is the last one that hears.
  first_attempt :
      (packet : Bytes) (dests : List SocketAddr) (start timeout left t : ℕ) (e : IoError)
      (hs : List Hearing) (found : Search) (s : Air)
      → s.clock ≡ start
      → s.failures ≡ []
      → s.hearings ≡ failure t e ∷ hs
      → is_timeout e.kind ≡ true
      → timeout ≤ t
      → 2 ≤ timeout
      → found.cameras ≡ []
      → (attempts be packet dests start timeout left found s).0 ≡ ok found
  unfolding attempts
  first_attempt packet dests start timeout zero t e hs found s i h g k l b c = refl
  first_attempt packet dests start timeout (suc zero) t e hs found s i h g k l b c =
      let (u, q, (f, g', c')) = send_all_fine packet dests s h in
      let r = receive_answers_timeout start timeout t e hs found u (c' ∙ i) (g' ∙ g) k c in
      let v : Air = record u { hearings = hs; clock = u.clock + t } in
      let (v', q', f', g'', m, n) = pause_fine timeout found.cameras true v in rw (q, r, q') refl
  first_attempt packet dests start timeout (suc (suc left)) t e hs found s i h g k l b c =
      let (u, q, (f, g', c')) = send_all_fine packet dests s h in
      let r = receive_answers_timeout start timeout t e hs found u (c' ∙ i) (g' ∙ g) k c in
      let v : Air = record u { hearings = hs; clock = u.clock + t } in
      let (v', q', f', g'', m, n) = pause_fine timeout found.cameras false v in
      let w : (suc left == 0) ≡ false = ground arith in
      rw (q, r, w, q')
        (attempts_late packet dests start timeout (suc left) found v' (f' ∙ f)
          (omega (arith, n refl b, i, c')))

  set_up_fine : (s : Air) → s.failures ≡ [] → set_up s ≡ (ok tt, s)
  set_up_fine s f = attempted_fine (λ s'. s') s f

  create_discovery_socket_fine :
      (config : DiscoveryConfig) (s : Air)
      → s.failures ≡ []
      → create_discovery_socket config s ≡ (ok tt, s)
  unfolding create_discovery_socket
  create_discovery_socket_fine config s f =
      ap (λ p. next p.0 (λ u. if config.use_multicast then set_up else pure tt) p.1)
        (set_up_fine s f)
      ∙ elim (Bool-cases config.use_multicast) [
        | inl e ↦ rw e (set_up_fine s f)
        | inr e ↦ rw e refl
      ]

  set_read_timeout_fine :
      (timeout : ℕ) (s : Air)
      → s.failures ≡ []
      → 2 ≤ timeout
      → set_read_timeout timeout s ≡ (ok tt, record s { read_timeout = some timeout })
  unfolding set_read_timeout
  set_read_timeout_fine timeout s f h =
      let n : (timeout == 0) ≡ false = ground arith in
      rw n (attempted_fine (λ s'. record s' { read_timeout = some timeout }) s f)

  -- Where no other call on the socket fails, the read timeout is at least two nanoseconds, and the
  -- first `recv_from` runs into it, after that time or later, the search returns no camera,
  -- however many attempts it makes, and whatever would be heard after the next requests.
  pub discover_cameras_deaf :
      (config : DiscoveryConfig) (t : ℕ) (e : IoError) (hs : List Hearing) (s : Air)
      → s.failures ≡ []
      → s.hearings ≡ failure t e ∷ hs
      → is_timeout e.kind ≡ true
      → config.timeout ≤ t
      → 2 ≤ config.timeout
      → (discover_cameras be config s).0 ≡ ok []
  unfolding discover_cameras
  discover_cameras_deaf config t e hs s f h k l b =
      let heard_first =
        first_attempt (build_discovery_request be) (get_discovery_destinations config) s.clock
          config.timeout config.retry_count t e hs (record { cameras = []; seen_addrs = [] })
          (record s { read_timeout = some config.timeout }) refl f h k l b refl in
      rw
        (
          create_discovery_socket_fine config s f,
          set_up_fine s f,
          set_read_timeout_fine config.timeout s f b,
          heard_first,
        )
        refl
