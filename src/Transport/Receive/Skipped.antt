-- ===== src/Transport/Receive/Skipped.antt =====
-- src/transport.rs: `recv_packet_filtered` goes past packets of another type.
use pipop_core.Base.{
  ℕ, zero, suc, ◌*◌, ◌-◌, ◌<◌, ◌≡◌, ◌∙◌, refl, ap, sym, Bool, true, false, Option, Result, ok, err,
  stuck, length, ltb, ge→ltb, if◌then◌else◌, arith,
}
use mathlib.Core.Path.{subst}
use pipop_core.Error.{PtpIpError}
use pipop_core.External.{BigEndian}
use pipop_core.Types.{PtpIpPacket, PtpIpMessageType, SessionConfig}
use pipop_core.Net.{Wire, Net, continue}
use pipop_core.Net.Rules.{Used}
use pipop_core.Transport.Receive.{recv_packet, filter_loop, recv_packet_filtered, is_expected}
use pipop_core.Transport.Receive.Progress.{Advances-recv_packet}

-- Two ways to go on that agree wherever less input is left.
pub continue-same :
    {A B : Type 0} (w : Wire) (p : Result PtpIpError A × Wire) (f g : A → Net PtpIpError B)
    → Used w p
    → ((a : A) (w' : Wire) → length w'.incoming < length w.incoming → f a w' ≡ g a w')
    → continue p.0 f p.1 ≡ continue p.0 g p.1
continue-same w (ok a, w') f g h k = k a w' h
continue-same w (err e, w') f g h k = refl
continue-same w (stuck, w') f g h k = refl

pub if-same :
    {A : Type 0} (b : Bool) (l m n : Net PtpIpError A) (w : Wire)
    → m w ≡ n w
    → (if b then l else m) w ≡ (if b then l else n) w
if-same true l m n w h = refl
if-same false l m n w h = h

module _ (be : BigEndian) (expected : Option PtpIpMessageType) (config : SessionConfig) where
  -- More fuel than there is input changes nothing.
  filter_loop-fuel :
      (f g start : ℕ) (w : Wire)
      → length w.incoming < f
      → length w.incoming < g
      → filter_loop be f start expected config w ≡ filter_loop be g start expected config w
  unfolding filter_loop
  filter_loop-fuel zero g start w h k = absurd (omega arith)
  filter_loop-fuel (suc f) zero start w h k = absurd (omega arith)
  filter_loop-fuel (suc f) (suc g) start w h k =
      if-same (ltb (config.timeout * 1000) (w.clock - start)) _ _ _ w (
        continue-same w (recv_packet be w) _ _ ((Advances-recv_packet be).at w) λ packet w' l.
          if-same (is_expected expected packet.message_type) _ _ _ w'
            (filter_loop-fuel f g start w' (omega arith) (omega arith)))

  filter_loop-skip :
      (fuel start : ℕ) (packet : PtpIpPacket) (w w' : Wire)
      → ltb (config.timeout * 1000) (w.clock - start) ≡ false
      → recv_packet be w ≡ (ok packet, w')
      → is_expected expected packet.message_type ≡ false
      → filter_loop be (suc fuel) start expected config w
        ≡ filter_loop be fuel start expected config w'
  unfolding filter_loop
  filter_loop-skip fuel start packet w w' i e n = rw (i, e, n) refl

  -- Behind a packet of another type, that took no time, it is as if the packet had not come.
  pub recv_packet_filtered-skip :
      (packet : PtpIpPacket) (w w' : Wire)
      → recv_packet be w ≡ (ok packet, w')
      → is_expected expected packet.message_type ≡ false
      → w'.clock ≡ w.clock
      → recv_packet_filtered be expected config w ≡ recv_packet_filtered be expected config w'
  unfolding recv_packet_filtered
  recv_packet_filtered-skip packet w w' e n t =
      let l : length w'.incoming < length w.incoming =
        subst (λ p. Used w p) e ((Advances-recv_packet be).at w) in
      filter_loop-skip (length w.incoming) w.clock packet w w' (ge→ltb _ _ (omega arith)) e n
      ∙ filter_loop-fuel (length w.incoming) (suc (length w'.incoming)) w.clock w' l (omega arith)
      ∙ ap (λ s. filter_loop be (suc (length w'.incoming)) s expected config w') (sym t)
