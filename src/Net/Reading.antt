-- ===== src/Net/Reading.antt =====
-- What `read_exact` returns, and what it uses up.
use pipop_core.Base.{
  ℕ, zero, suc, ◌+◌, ◌≤◌, ◌≡◌, refl, ap, List, [], ◌∷◌, ◌++◌, Bytes, Result, ok, err, stuck, map_ok,
  length, arith,
}
use pipop_core.Io.{IoError}
use pipop_core.Net.{Wire, Arrival, byte, pause, fault, recv_bytes, read_exact}
use pipop_core.Net.Rules.{Kept, Used, Ends, Advances}

-- `n` bytes were taken from the arrivals, or an error came.
abbrev Took : ℕ → List Arrival → Result IoError Bytes × List Arrival × ℕ → Type 0
Took n arrivals (ok bs, rest, t) = (length rest + n ≤ length arrivals) × (length bs ≡ n)
Took n arrivals (err e, rest, t) = length rest ≤ length arrivals
Took n arrivals (stuck, rest, t) = ⊥

Took-byte :
    (n b : ℕ) (arrivals : List Arrival) (p : Result IoError Bytes × List Arrival × ℕ)
    → Took n arrivals p
    → Took (suc n) (byte b ∷ arrivals) (map_ok (λ bs. b ∷ bs) p.0, p.1, p.2)
Took-byte n b arrivals (ok bs, rest, t) h = (omega arith, omega arith)
Took-byte n b arrivals (err e, rest, t) h = omega arith
Took-byte n b arrivals (stuck, rest, t) h = h

Took-pause :
    (n d : ℕ) (arrivals : List Arrival) (p : Result IoError Bytes × List Arrival × ℕ)
    → Took n arrivals p
    → Took n (pause d ∷ arrivals) p
Took-pause n d arrivals (ok bs, rest, t) h = (omega arith, h.1)
Took-pause n d arrivals (err e, rest, t) h = omega arith
Took-pause n d arrivals (stuck, rest, t) h = h

recv_bytes-Took :
    (n : ℕ) (arrivals : List Arrival) (t : ℕ) → Took n arrivals (recv_bytes n arrivals t)
unfolding recv_bytes
recv_bytes-Took zero arrivals t = (omega arith, refl)
recv_bytes-Took (suc n) [] t = omega arith
recv_bytes-Took (suc n) (byte b ∷ rest) t =
    Took-byte n b rest (recv_bytes n rest t) (recv_bytes-Took n rest t)
recv_bytes-Took (suc n) (pause d ∷ rest) t =
    Took-pause (suc n) d rest (recv_bytes (suc n) rest (t + d))
      (recv_bytes-Took (suc n) rest (t + d))
recv_bytes-Took (suc n) (fault e ∷ rest) t = omega arith

Used-Took :
    (n : ℕ) (w : Wire) (p : Result IoError Bytes × List Arrival × ℕ)
    → Took (suc n) w.incoming p
    → Used w (p.0, record w { incoming = p.1; clock = p.2 })
Used-Took n w (ok bs, rest, t) h = omega arith
Used-Took n w (err e, rest, t) h = h
Used-Took n w (stuck, rest, t) h = h

Kept-Took :
    (n : ℕ) (w : Wire) (p : Result IoError Bytes × List Arrival × ℕ)
    → Took n w.incoming p
    → Kept w (p.0, record w { incoming = p.1; clock = p.2 })
Kept-Took n w (ok bs, rest, t) h = omega arith
Kept-Took n w (err e, rest, t) h = h
Kept-Took n w (stuck, rest, t) h = h

pub Ends-read_exact : (n : ℕ) → Ends (read_exact n)
unfolding read_exact
Ends-read_exact n = record { at = λ w. Kept-Took n w _ (recv_bytes-Took n w.incoming w.clock) }

pub Advances-read_exact : (n : ℕ) → Advances (read_exact (suc n))
unfolding read_exact
Advances-read_exact n = record {
  at = λ w. Used-Took n w _ (recv_bytes-Took (suc n) w.incoming w.clock);
}

-- Bytes that arrive with no gap.
abbrev pub arriving : Bytes → List Arrival → List Arrival
arriving [] rest = rest
arriving (b ∷ bs) rest = byte b ∷ arriving bs rest

pub recv_bytes-arriving :
    (bs : Bytes) (n : ℕ) (rest : List Arrival) (t : ℕ)
    → length bs ≡ n
    → recv_bytes n (arriving bs rest) t ≡ (ok bs, rest, t)
unfolding recv_bytes
recv_bytes-arriving [] zero rest t e = refl
recv_bytes-arriving [] (suc n) rest t e = absurd (omega arith)
recv_bytes-arriving (b ∷ bs) zero rest t e = absurd (omega arith)
recv_bytes-arriving (b ∷ bs) (suc n) rest t e = rw (recv_bytes-arriving bs n rest t (omega arith))

-- The same state, with other input.
abbrev pub fed : Wire → List Arrival → Wire
fed w arrivals = record w { incoming = arrivals }

pub read_exact-arriving :
    (bs : Bytes) (n : ℕ) (rest : List Arrival) (w : Wire)
    → length bs ≡ n
    → read_exact n (fed w (arriving bs rest)) ≡ (ok bs, fed w rest)
unfolding read_exact
read_exact-arriving bs n rest w e = rw (recv_bytes-arriving bs n rest w.clock e)

pub arriving-append :
    (xs ys : Bytes) (rest : List Arrival)
    → arriving (xs ++ ys) rest ≡ arriving xs (arriving ys rest)
arriving-append [] ys rest = refl
arriving-append (x ∷ xs) ys rest =
    ap (λ (t : List Arrival). byte x ∷ t) (arriving-append xs ys rest)
