-- ===== src/Discovery/Socket.antt =====
-- What the program uses of `std::net::UdpSocket` and of `std::time`: a socket as a state.
use pipop_core.Base.{
  ℕ, ◌+◌, Bool, ◌&&◌, true, false, if◌then◌else◌, ◌-◌, Option, none, some, List, [], ◌∷◌, ◌++◌,
  Bytes, Result, ok, err, stuck, take, text, ◌==◌,
}
use pipop_core.Io.{IoError, would_block, invalid_input}
use pipop_core.Error.{PtpIpError, from_io}
use pipop_core.Types.{Ipv4Addr}

-- The octets or segments of the address, the port, and for IPv6 the flow label and the scope.
pub data SocketAddr : Type 0 where
  v4 : Ipv4Addr → ℕ → SocketAddr
  v6 : List ℕ → ℕ → ℕ → ℕ → SocketAddr

-- The derived `==` of `Ipv4Addr`, and that of `SocketAddr`.
unfoldable pub same_ip : Ipv4Addr → Ipv4Addr → Bool
same_ip a b =
    a.octet_0 == b.octet_0
    && (a.octet_1 == b.octet_1 && (a.octet_2 == b.octet_2 && a.octet_3 == b.octet_3))

unfoldable pub same_segments : List ℕ → List ℕ → Bool
same_segments [] [] = true
same_segments [] (y ∷ ys) = false
same_segments (x ∷ xs) [] = false
same_segments (x ∷ xs) (y ∷ ys) = x == y && same_segments xs ys

unfoldable pub same_addr : SocketAddr → SocketAddr → Bool
same_addr (v4 a p) (v4 b q) = same_ip a b && p == q
same_addr (v4 a p) (v6 b q f s) = false
same_addr (v6 a p f s) (v4 b q) = false
same_addr (v6 a p f s) (v6 b q g t) = same_segments a b && (p == q && (f == g && s == t))

-- What a `recv_from` meets after so many nanoseconds: a datagram from an address, or an error.
pub data Hearing : Type 0 where
  datagram : ℕ → Bytes → SocketAddr → Hearing
  failure : ℕ → IoError → Hearing

-- `failures` has the outcomes of the coming calls but `recv_from`; those behind its end succeed.
-- Behind the end of `hearings` the read timeout runs out. Times are in nanoseconds.
pub record Air : Type 0 where
  pub hearings : List Hearing
  pub failures : List (Option IoError)
  pub sent : List (Bytes × SocketAddr)
  pub read_timeout : Option ℕ
  pub clock : ℕ

abbrev pub Radio : Type 0 → Type 0
Radio A = Air → Result PtpIpError A × Air

abbrev pub next : {A B : Type 0} → Result PtpIpError A → (A → Radio B) → Radio B
next (ok a) f s = f a s
next (err e) f s = (err e, s)
next stuck f s = (stuck, s)

infixl 5 ◌>>=◌ ◌>>◌
abbrev pub ◌>>=◌ : {A B : Type 0} → Radio A → (A → Radio B) → Radio B
◌>>=◌ m f s = next (m s).0 f (m s).1

abbrev pub ◌>>◌ : {A B : Type 0} → Radio A → Radio B → Radio B
m >> k = m >>= λ _. k

abbrev pub pure : {A : Type 0} → A → Radio A
pure a s = (ok a, s)

abbrev pub lift : {A : Type 0} → Result PtpIpError A → Radio A
lift r s = (r, s)

abbrev pub out_of_fuel : {A : Type 0} → Radio A
out_of_fuel s = (stuck, s)

abbrev pub by_outcome : List (Option IoError) → (Air → Air) → Radio (Unit {0})
by_outcome [] f s = (ok tt, f s)
by_outcome (none ∷ os) f s = (ok tt, f (record s { failures = os }))
by_outcome (some e ∷ os) f s = (err (from_io e), record s { failures = os })

-- A call that may fail, behind a `?`.
unfoldable pub attempted : (Air → Air) → Radio (Unit {0})
attempted f s = by_outcome s.failures f s

-- `bind`, `join_multicast_v4` and `set_broadcast`, of which the program sees only whether they fail.
abbrev pub set_up : Radio (Unit {0})
set_up = attempted (λ s. s)

unfoldable pub zero_duration : IoError
unfolding text
zero_duration = record { kind = invalid_input; message = text "cannot set a 0 duration timeout" }

-- `set_read_timeout`, which refuses a timeout of zero.
unfoldable pub set_read_timeout : ℕ → Radio (Unit {0})
set_read_timeout timeout =
    if timeout == 0
    then lift (err (from_io zero_duration))
    else attempted (λ s. record s { read_timeout = some timeout })

unfoldable pub send_to : Bytes → SocketAddr → Radio (Unit {0})
send_to bs dest = attempted (λ s. record s { sent = s.sent ++ ((bs, dest) ∷ []) })

-- The end of the read timeout. A socket without one would wait forever.
abbrev wait : Option ℕ → ℕ
wait none = 0
wait (some t) = t

unfoldable pub timed : IoError
unfolding text
timed = record {
  kind = would_block;
  message = text "Resource temporarily unavailable (os error 11)";
}

-- What is heard next, for a buffer of so many bytes; what does not fit is lost.
abbrev pub Heard : Type 0
Heard = Result IoError (Bytes × SocketAddr)

abbrev pub heard : ℕ → List Hearing → Air → Heard × Air
heard size [] s = (err timed, record s { clock = s.clock + wait s.read_timeout })
heard size (datagram t bs src ∷ hs) s =
    (ok (take size bs, src), record s { hearings = hs; clock = s.clock + t })
heard size (failure t e ∷ hs) s = (err e, record s { hearings = hs; clock = s.clock + t })

unfoldable pub recv_from : ℕ → Air → Heard × Air
recv_from size s = heard size s.hearings s

abbrev pub elapsed : ℕ → Air → ℕ
elapsed start s = s.clock - start

-- `Instant::now()`
abbrev pub now : Radio ℕ
now s = (ok s.clock, s)

abbrev pub sleep : ℕ → Radio (Unit {0})
sleep t s = (ok tt, record s { clock = s.clock + t })
