-- ===== src/Discovery/Distinct.antt =====
-- src/discovery.rs: cameras that differ, and what `is_known` finds.
use pipop_core.Base.{
  ◌≡◌, refl, Bool, true, false, ◌&&◌, ◌||◌, List, [], ◌∷◌, ◌++◌, All, ◌==◌, ==_refl,
}
use pipop_core.Types.{Ipv4Addr, DiscoveredCamera}
use pipop_core.Discovery.Socket.{same_ip}
use pipop_core.Discovery.{is_known}

-- Two cameras differ in their address or in their port.
abbrev pub Differ : DiscoveredCamera → DiscoveredCamera → Type 0
Differ c d = c.ip_address ≡ d.ip_address → c.port ≡ d.port → ⊥

-- No two cameras of the list have the same address and port.
abbrev pub AllDiffer : List DiscoveredCamera → Type 0
AllDiffer [] = Unit {0}
AllDiffer (c ∷ cs) = All (Differ c) cs × AllDiffer cs

same_ip_refl : (a : Ipv4Addr) → same_ip a a ≡ true
unfolding same_ip
same_ip_refl a =
    rw (==_refl a.octet_0, ==_refl a.octet_1, ==_refl a.octet_2, ==_refl a.octet_3) refl

or_false : (a b : Bool) → (a || b) ≡ false → (a ≡ false) × (b ≡ false)
or_false true b h = cc
or_false false b h = (refl, h)

Differ-is_known :
    (c camera : DiscoveredCamera)
    → (same_ip c.ip_address camera.ip_address && c.port == camera.port) ≡ false
    → Differ c camera
Differ-is_known c camera h e f =
    let g : (same_ip camera.ip_address camera.ip_address && camera.port == camera.port) ≡ true =
      rw (same_ip_refl camera.ip_address, ==_refl camera.port) refl in
    let h' : (same_ip camera.ip_address camera.ip_address && camera.port == camera.port) ≡ false =
      rw (e, f) at h in
    cc

pub All-append :
    (P : DiscoveredCamera → Type 0) (xs : List DiscoveredCamera) (y : DiscoveredCamera)
    → All P xs
    → P y
    → All P (xs ++ (y ∷ []))
All-append P [] y h k = (k, tt)
All-append P (x ∷ xs) y (h, r) k = (h, All-append P xs y r k)

pub AllDiffer-append :
    (cs : List DiscoveredCamera) (camera : DiscoveredCamera)
    → AllDiffer cs
    → is_known camera cs ≡ false
    → AllDiffer (cs ++ (camera ∷ []))
unfolding is_known
AllDiffer-append [] camera h k = (tt, tt)
AllDiffer-append (c ∷ cs) camera (h, r) k =
    let (a, b) = or_false _ (is_known camera cs) k in
    (
      All-append (λ d. Differ c d) cs camera h (Differ-is_known c camera a),
      AllDiffer-append cs camera r b,
    )
