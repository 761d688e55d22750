-- ===== src/Discovery/Parsed.antt =====
-- src/discovery.rs: which answers of cameras are understood.
use pipop_core.Base.{
  ℕ, zero, suc, ◌+◌, ◌≤◌, ◌≡◌, refl, Bool, true, false, not, Option, none, [], ◌∷◌, Bytes, ok,
  length, length-drop, drop, ltb, ◌==◌, if◌then◌else◌, arith,
}
use pipop_core.Io.{Reader, IoError, pure, ◌>>=◌, read_exact}
use pipop_core.External.{BigEndian}
use pipop_core.Types.{DiscoveredCamera}
use pipop_core.Transport.Header.{cursor_u16, cursor_u32}
use pipop_core.Discovery.Socket.{SocketAddr}
use pipop_core.Discovery.Answers.{
  vendor_fields, response_fields, parse_discovery_response, camera_from,
}

-- The reader succeeds on so many bytes.
abbrev Reads : {A : Type 0} → ℕ → Reader IoError A → Type 0
Reads {A} n m = (bs : Bytes) → n ≤ length bs → (r : A × Bytes) × (m bs ≡ ok r)

Reads-pure : {A : Type 0} (a : A) (n : ℕ) → Reads n (pure a)
Reads-pure a n bs h = ((a, bs), refl)

Reads-bind :
    {A B : Type 0} (k n : ℕ) (m : Reader IoError A) (f : A → Reader IoError B)
    → ((bs : Bytes) → k ≤ length bs → (a : A) × (m bs ≡ ok (a, drop k bs)))
    → ((a : A) → Reads n (f a))
    → Reads (k + n) (m >>= f)
Reads-bind k n m f t g bs h =
    let (a, q) = t bs (omega arith) in rw q (g a (drop k bs) (omega (arith, length-drop k bs)))

Reads-if :
    {A : Type 0} (n : ℕ) (b : Bool) (m k : Reader IoError A)
    → Reads n m
    → Reads n k
    → Reads n (if b then m else k)
Reads-if n true m k h l = h
Reads-if n false m k h l = l

read_exact-enough :
    (k : ℕ) (bs : Bytes) → k ≤ length bs → (a : Bytes) × (read_exact k bs ≡ ok (a, drop k bs))
unfolding read_exact
read_exact-enough zero bs h = ([], refl)
read_exact-enough (suc k) [] h = absurd (omega arith)
read_exact-enough (suc k) (b ∷ bs) h =
    let (a, q) = read_exact-enough k bs (omega arith) in (b ∷ a, rw q refl)

module _ (be : BigEndian) where
  cursor_u16-enough :
      (bs : Bytes) → 2 ≤ length bs → (a : ℕ) × (cursor_u16 be bs ≡ ok (a, drop 2 bs))
  unfolding cursor_u16
  cursor_u16-enough bs h = let (a, q) = read_exact-enough 2 bs h in (be.read_u16 a, rw q refl)

  cursor_u32-enough :
      (bs : Bytes) → 4 ≤ length bs → (a : ℕ) × (cursor_u32 be bs ≡ ok (a, drop 4 bs))
  unfolding cursor_u32
  cursor_u32-enough bs h = let (a, q) = read_exact-enough 4 bs h in (be.read_u32 a, rw q refl)

  vendor_fields-Reads : (buffer : Bytes) (src : SocketAddr) → Reads 8 (vendor_fields be buffer src)
  unfolding vendor_fields
  vendor_fields-Reads buffer src = Reads-bind 4 4 (cursor_u32 be) _ cursor_u32-enough λ e.
      Reads-bind 2 2 (cursor_u16 be) _ cursor_u16-enough λ x.
        Reads-bind 2 0 (cursor_u16 be) _ cursor_u16-enough
          λ p. Reads-pure (camera_from e x p (drop 14 buffer) src) 0

  response_fields-Reads :
      (buffer : Bytes) (src : SocketAddr) → Reads 12 (response_fields be buffer src)
  unfolding response_fields
  response_fields-Reads buffer src = Reads-bind 2 10 (cursor_u16 be) _ cursor_u16-enough λ t.
      Reads-if 10 (not (t == _)) (pure none) _ (Reads-pure none 10) (
        Reads-bind 2 8 (cursor_u16 be) _ cursor_u16-enough λ v.
          Reads-if 8 (not (v == _)) (pure none) _ (Reads-pure none 8)
            (vendor_fields-Reads buffer src))

  long_parsed :
      (buffer : Bytes) (src : SocketAddr) (b : Bool)
      → ltb (length buffer) 14 ≡ b
      → (o : Option DiscoveredCamera) × (parse_discovery_response be buffer src ≡ ok o)
  unfolding parse_discovery_response
  long_parsed buffer src true h = (none, rw h refl)
  long_parsed buffer src false h =
      let (r, q) = response_fields-Reads buffer src buffer (ground arith) in (r.0, rw (h, q) refl)

  -- A datagram is never an error, whatever its bytes are: it gives a camera, or nothing.
  pub parse_discovery_response_total :
      (buffer : Bytes) (src : SocketAddr)
      → (o : Option DiscoveredCamera) × (parse_discovery_response be buffer src ≡ ok o)
  parse_discovery_response_total buffer src = long_parsed buffer src (ltb (length buffer) 14) refl
