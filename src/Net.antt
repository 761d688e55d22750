-- ===== src/Net.antt =====
-- What the program uses of `std::net::TcpStream`, `std::time` and `std::thread::sleep`: a connection
-- as a state, and calls that may fail and keep what they did before.
pub mod Rules
pub mod Reading
pub mod Dialing
use pipop_core.Base.{
  ℕ, zero, suc, ◌+◌, Option, none, some, List, [], ◌∷◌, ◌++◌, map, Bytes, Result, ok, err, stuck,
  map_err, map_ok, take,
}
use pipop_core.Io.{IoError, eof_error}
use pipop_core.Error.{PtpIpError, from_io}
use pipop_core.External.{Random}

-- What the peer and the network do next: a byte comes, milliseconds pass, or a read fails. A read
-- that runs into the stream's read timeout is such a failure. The list's end is the end of the stream,
-- so a stream on which bytes come for ever is no such list.
pub data Arrival : Type 0 where
  byte : ℕ → Arrival
  pause : ℕ → Arrival
  fault : IoError → Arrival

-- How a `write_all` goes: all is written, or an error comes after some bytes.
pub data Writing : Type 0 where
  accept : Writing
  refuse : ℕ → IoError → Writing

-- `writes` has the outcomes of the coming calls of `write_all`; those behind its end succeed.
-- `clock` is in milliseconds, and `drawn` counts the random numbers that were drawn.
pub record Wire : Type 0 where
  pub incoming : List Arrival
  pub outgoing : Bytes
  pub writes : List Writing
  pub clock : ℕ
  pub drawn : ℕ

abbrev pub Net : Type 0 → Type 0 → Type 0
Net E A = Wire → Result E A × Wire

module _ {E : Type 0} where
  abbrev pub pure : {A : Type 0} → A → Net E A
  pure a w = (ok a, w)

  abbrev pub fail : {A : Type 0} → E → Net E A
  fail e w = (err e, w)

  -- A result that was computed without the connection.
  abbrev pub lift : {A : Type 0} → Result E A → Net E A
  lift r w = (r, w)

  abbrev pub out_of_fuel : {A : Type 0} → Net E A
  out_of_fuel w = (stuck, w)

  abbrev pub continue : {A B : Type 0} → Result E A → (A → Net E B) → Net E B
  continue (ok a) f w = f a w
  continue (err e) f w = (err e, w)
  continue stuck f w = (stuck, w)

  infixl 5 ◌>>=◌ ◌>>◌
  abbrev pub ◌>>=◌ : {A B : Type 0} → Net E A → (A → Net E B) → Net E B
  ◌>>=◌ m f w = continue (m w).0 f (m w).1

  abbrev pub ◌>>◌ : {A B : Type 0} → Net E A → Net E B → Net E B
  m >> k = m >>= λ _. k

  -- A `match` on a result that hands its error on to `f`.
  abbrev pub recover : {A : Type 0} → Result E A → (E → Net E A) → Net E A
  recover (ok a) f w = (ok a, w)
  recover (err e) f w = f e w
  recover stuck f w = (stuck, w)

  abbrev pub or_else : {A : Type 0} → Net E A → (E → Net E A) → Net E A
  or_else m f w = recover (m w).0 f (m w).1

  -- `Instant::now()`
  abbrev pub now : Net E ℕ
  now w = (ok w.clock, w)

  abbrev pub sleep : ℕ → Net E (Unit {0})
  sleep ms w = (ok tt, record w { clock = w.clock + ms })

-- `?` on an I/O error, which converts it by `From`.
abbrev pub question : {A : Type 0} → Net IoError A → Net PtpIpError A
question m w = (map_err from_io (m w).0, (m w).1)

-- What a call is worth to code that only asks whether it succeeded, `is_ok()`.
abbrev pub success : {E A : Type 0} → Result E A → Option A
success (ok a) = some a
success (err e) = none
success stuck = none

abbrev pub attempt : {E F A : Type 0} → Net E A → Net F (Option A)
attempt m w = (ok (success (m w).0), (m w).1)

-- The next `n` bytes, what is left behind them, and the time.
unfoldable pub recv_bytes : ℕ → List Arrival → ℕ → Result IoError Bytes × List Arrival × ℕ
recv_bytes zero as_yet t = (ok [], as_yet, t)
recv_bytes (suc n) [] t = (err eof_error, [], t)
recv_bytes (suc n) (byte b ∷ rest) t =
    let (r, rest', t') = recv_bytes n rest t in (map_ok (λ bs. b ∷ bs) r, rest', t')
recv_bytes (suc n) (pause d ∷ rest) t = recv_bytes (suc n) rest (t + d)
recv_bytes (suc n) (fault e ∷ rest) t = (err e, rest, t)

-- `read_exact` into a buffer of `n` bytes. What came before an error is gone.
unfoldable pub read_exact : ℕ → Net IoError Bytes
read_exact n w =
    let (r, rest, t) = recv_bytes n w.incoming w.clock in
    (r, record w { incoming = rest; clock = t })

unfoldable pub write_with : List Writing → Bytes → Net IoError (Unit {0})
write_with [] bs w = (ok tt, record w { outgoing = w.outgoing ++ bs })
write_with (accept ∷ rest) bs w = (ok tt, record w { outgoing = w.outgoing ++ bs; writes = rest })
write_with (refuse k e ∷ rest) bs w =
    (err e, record w { outgoing = w.outgoing ++ take k bs; writes = rest })

unfoldable pub write_all : Bytes → Net IoError (Unit {0})
unfolding write_with
write_all bs w = write_with w.writes bs w

-- `TcpStream::flush` does nothing.
abbrev pub flush : Net IoError (Unit {0})
flush = pure tt

-- `thread_rng().gen::<u32>()`, src/types.rs `generate_transaction_id`
unfoldable pub generate_transaction_id : {E : Type 0} → Random → Net E ℕ
generate_transaction_id rng w = (ok (rng.draw w.drawn), record w { drawn = w.drawn + 1 })
