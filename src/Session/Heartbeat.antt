-- ===== src/Session/Heartbeat.antt =====
-- src/session.rs: the heartbeat that keeps a session from being idle.
use pipop_core.Base.{
  ◌-◌, ◌*◌, ◌/◌, ◌≡◌, inl, inr, false, Bool-cases, [], Result, ok, err, stuck, ge→ltb, arith,
}
use pipop_core.External.{BigEndian, Random}
use pipop_core.Error.{PtpIpError}
use pipop_core.Types.{PtpOperationCode}
use pipop_core.Net.{Wire}
use pipop_core.Session.{
  Session, resume, exchange, update_activity, send_heartbeat, is_idle, check_heartbeat,
}

-- After a successful call that ends by noting the time, the session is fresh.
resume-update_activity :
    {A : Type 0} (r : Result PtpIpError A) (s : Session) (w : Wire)
    → (resume r (λ _. update_activity) s w).0 ≡ ok tt
    → let after = resume r (λ _. update_activity) s w in is_idle after.1 after.2 ≡ false
unfolding update_activity is_idle
resume-update_activity (ok a) s w h =
    rw (ge→ltb (s.config.timeout / 2 * 1000) (w.clock - w.clock) (omega arith)) ground arith
resume-update_activity (err e) s w h = absurd (cc)
resume-update_activity stuck s w h = absurd (cc)

-- After a successful `check_heartbeat` the session is not idle.
pub check_heartbeat-fresh :
    (be : BigEndian) (rng : Random) (s : Session) (w : Wire)
    → (check_heartbeat be rng s w).0 ≡ ok tt
    → let after = check_heartbeat be rng s w in is_idle after.1 after.2 ≡ false
unfolding check_heartbeat send_heartbeat
check_heartbeat-fresh be rng s w h = elim (Bool-cases (is_idle s w)) [
  | inl idle ↦
      let sent = exchange be rng PtpOperationCode.get_device_info [] s w in
      rw idle (resume-update_activity sent.0 sent.1 sent.2 (rw idle at h))
  | inr fresh ↦ rw (fresh, fresh)
]
