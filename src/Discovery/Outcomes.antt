-- ===== src/Discovery/Outcomes.antt =====
-- src/discovery.rs: what holds after a call on the socket, with a rule for each way to build one.
use pipop_core.Base.{◌≡◌, refl, Bool, true, false, Result, ok, err, stuck, if◌then◌else◌}
use pipop_core.Io.{IoError}
use pipop_core.Error.{PtpIpError, from_io}
use pipop_core.Discovery.Socket.{Air, Radio, next}

-- The call ends: with a value and a state of `P`, or with the error of a call on the socket.
abbrev pub Brings : {A : Type 0} → (A → Air → Type 0) → Result PtpIpError A × Air → Type 0
Brings P (ok a, s) = P a s
Brings P (err e, s) = (x : IoError) × (e ≡ from_io x)
Brings P (stuck, s) = ⊥

module _ {A B : Type 0} (P : A → Air → Type 0) (Q : B → Air → Type 0) where
  pub next-Brings :
      (p : Result PtpIpError A × Air) (f : A → Radio B)
      → Brings P p
      → ((a : A) (s : Air) → P a s → Brings Q (f a s))
      → Brings Q (next p.0 f p.1)
  next-Brings (ok a, s) f h k = k a s h
  next-Brings (err e, s) f h k = h
  next-Brings (stuck, s) f h k = h

pub if-Brings :
    {A : Type 0} (P : A → Air → Type 0) (b : Bool) (m k : Radio A) (s : Air)
    → (b ≡ true → Brings P (m s))
    → (b ≡ false → Brings P (k s))
    → Brings P ((if b then m else k) s)
if-Brings P true m k s h g = h refl
if-Brings P false m k s h g = g refl
