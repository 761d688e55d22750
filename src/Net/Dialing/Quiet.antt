-- ===== src/Net/Dialing/Quiet.antt =====
-- Functions that open a stream, fail, and send nothing.
use pipop_core.Base.{ℕ, ◌≡◌, refl, Option, none, some, ◌⊎◌, inl, inr, err}
use pipop_core.Io.{IoError}
use pipop_core.Error.{PtpIpError, from_io}
use pipop_core.Net.{Wire, Net, ◌>>=◌, ◌>>◌}
use pipop_core.Net.Dialing.{Tcp, Dialed, unopened, opened, option, on_dial}

-- A call that fails on each stream and writes nothing.
abbrev pub IsQuiet : {A : Type 0} → Net PtpIpError A → Type 0
IsQuiet m = (w : Wire) → (e : PtpIpError) × ((m w).0 ≡ err e) × ((m w).1.outgoing ≡ w.outgoing)

-- Nothing was opened, or the result is an error and nothing was written to the stream that was
-- dialed.
abbrev pub FailsQuietly : {A : Type 0} → IoError ⊎ Wire → Dialed A → Type 0
FailsQuietly d (unopened e) = (x : IoError) × (d ≡ inl x) × (e ≡ from_io x)
FailsQuietly d (opened r w') =
    (e : PtpIpError) × (r ≡ err e) × ((w : Wire) × (d ≡ inr w) × (w'.outgoing ≡ w.outgoing))

pub on_dial-FailsQuietly :
    {A : Type 0} (d : IoError ⊎ Wire) (m : Net PtpIpError A)
    → IsQuiet m
    → FailsQuietly d (on_dial d m)
on_dial-FailsQuietly (inl e) m h = (e, refl, refl)
on_dial-FailsQuietly (inr w) m h = let (e, q, o) = h w in (e, q, (w, refl, o))

pub option-IsQuiet :
    {A : Type 0} (o : Option IoError) (m : Net PtpIpError A) → IsQuiet m → IsQuiet (option o >> m)
option-IsQuiet none m h = h
option-IsQuiet (some e) m h = λ w. (from_io e, refl, refl)

pub bind-IsQuiet :
    {A B : Type 0} (m : Net PtpIpError A) (f : A → Net PtpIpError B) → IsQuiet m → IsQuiet (m >>= f)
bind-IsQuiet m f h = λ w. let (e, q, o) = h w in (e, rw q refl, rw q o)

-- A read timeout of zero is refused.
pub zero_timeout-IsQuiet : (tcp : Tcp) (t : ℕ) → t ≡ 0 → IsQuiet (option (tcp.set_read_timeout t))
zero_timeout-IsQuiet tcp t z =
    let (e, q, k) = tcp.zero_refused in λ w. (from_io e, rw (z, q) refl, rw (z, q) refl)
