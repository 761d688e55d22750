-- ===== src/Foreign/Cameras/Balance.antt =====
-- src/discovery.rs: a C caller that searches, and gives back what the outputs name.
use pipop_core.Base.{
  All, ◌⊎◌, inl, inr, Result, err, stuck, ℕ, suc, ◌<◌, ◌≡◌, ◌∙◌, refl, Bool, true, false, Option,
  none, some, List, [], ◌∷◌, ok, length, ==_ne, arith,
}
use pipop_core.External.{BigEndian}
use pipop_core.Types.{DiscoveredCamera}
use pipop_core.Discovery.Socket.{Air}
use pipop_core.Discovery.{default_discovery_config, discover_cameras}
use pipop_core.Foreign.Memory.{ℤ, pos, negsuc, Foreign, Memory, pure, ◌>>=◌, set, calloc, place}
use pipop_core.Foreign.Cells.{Cell, c_cameras}
use pipop_core.Foreign.Strings.Laws.{IsFresh}
use pipop_core.Foreign.Cameras.{
  found, Outputs, zeroed, hand_out, ptpip_discover_cameras, ptpip_free_cameras,
}
use pipop_core.Foreign.Cameras.Owned.{set_other, infos_of, Names}
use pipop_core.Foreign.Cameras.Returned.{
  with_array, hand_out_lem, ptpip_free_cameras_lem, cell_as_before,
}
use pipop_core.Discovery.Outcomes.{Brings}
use pipop_core.Discovery.Socket.{Hearing, datagram, failure}
use pipop_core.Discovery.Found.{Gives, discover_cameras-IsGood}
use pipop_core.Error.{PtpIpError}

-- The caller gives back what the outputs name.
abbrev pub given_back : Option ℕ → Option (Option ℕ) → Foreign Cell (Unit {0})
given_back (some n) (some p) = ptpip_free_cameras p n
given_back (some n) none = pure tt
given_back none c = pure tt

-- Outputs that no call has written.
abbrev pub unwritten : Outputs
unwritten = record { count = none; cameras = none }

abbrev returned : ℤ × Outputs → Foreign Cell ℤ
returned (code, out) = given_back out.count out.cameras >>= λ u. pure code

abbrev pub borrowed : BigEndian → Bool → Bool → Air → Foreign Cell ℤ
borrowed be has_cameras has_count s =
    ptpip_discover_cameras be has_cameras has_count unwritten s >>= returned

calloc_lem :
    (c : Cell) (h : Memory Cell)
    → h.allocations ≡ []
    → calloc c h
      ≡ some (
        some h.next,
        record { next = suc h.next; cell = set h.next (some c) h.cell; allocations = [] },
      )
unfolding calloc place
calloc_lem c h e = rw e refl

-- The calls are defined, and each address holds after them what it held before.
abbrev pub IsBalanced : Memory Cell → Option (ℤ × Memory Cell) → Type 0
IsBalanced h o =
    (code : ℤ) × (h' : Memory Cell) × (o ≡ some (code, h')) × ((q : ℕ) → h'.cell q ≡ h.cell q)

-- How a call of `calloc` goes: it returns the next address, or a null pointer.
abbrev Allocates : ℕ → Memory Cell → Type 0
Allocates n h =
    (os : List Bool) × ((calloc (c_cameras (zeroed n)) h ≡ some (some h.next, with_array n os h))
      ⊎ (calloc (c_cameras (zeroed n)) h ≡ some (none, record h { allocations = os })))

calloc-Allocates : (n : ℕ) (os : List Bool) (h : Memory Cell) → h.allocations ≡ os → Allocates n h
unfolding calloc place
calloc-Allocates n [] h e = ([], inl (rw e refl))
calloc-Allocates n (true ∷ os) h e = (os, inl (rw e refl))
calloc-Allocates n (false ∷ os) h e = (os, inr (rw e refl))

found-IsBalanced :
    (c : DiscoveredCamera) (cs : List DiscoveredCamera) (h : Memory Cell)
    → IsFresh h
    → Allocates (length (c ∷ cs)) h
    → IsBalanced h ((hand_out (c ∷ cs) unwritten >>= returned) h)
unfolding hand_out
found-IsBalanced c cs h f (os, inl a) =
    let (h₁, e, r) = hand_out_lem c cs unwritten os h f a in
    let (g, k, d) = ptpip_free_cameras_lem h.next c cs h₁ r.array r.names in
    (
      pos 0,
      record g { cell = set h.next none g.cell },
      rw (e, k) refl,
      cell_as_before c cs os h h₁ g f r d,
    )
found-IsBalanced c cs h f (os, inr a) = (
  negsuc 2,
  record h { allocations = os },
  rw (==_ne (suc (length cs)) 0 (λ e. omega (arith, e)), a) refl,
  λ q. refl,
)

result-IsBalanced :
    (p : Result PtpIpError (List DiscoveredCamera) × Air) (P : List DiscoveredCamera → Air → Type 0)
    (h : Memory Cell)
    → Brings P p
    → IsFresh h
    → IsBalanced h ((found p.0 unwritten >>= returned) h)
unfolding hand_out ptpip_free_cameras
result-IsBalanced (ok [], s) P h b f = (pos 0, h, refl, λ q. refl)
result-IsBalanced (ok (c ∷ cs), s) P h b f =
    found-IsBalanced c cs h f (calloc-Allocates (length (c ∷ cs)) h.allocations h refl)
result-IsBalanced (err e, s) P h b f = (negsuc 1, h, refl, λ q. refl)
result-IsBalanced (stuck, s) P h b f = absurd b

-- Any datagrams.
given_anything : (be : BigEndian) (hs : List Hearing) → All (Gives be (λ c. Unit {0})) hs
given_anything be [] = tt
given_anything be (datagram t bs src ∷ hs) = (λ c e. tt, given_anything be hs)
given_anything be (failure t e ∷ hs) = (tt, given_anything be hs)

-- Whatever the network does, whether `calloc` fails or not, and whether the caller's pointers are
-- there or not: a search for a C caller, and then the call that frees what its outputs name, are
-- defined, and each address holds afterwards what it held before. No cell lies behind the next
-- address before the calls, and the outputs are not written then.
pub ptpip_discover_cameras-ptpip_free_cameras :
    (be : BigEndian) (has_cameras has_count : Bool) (s : Air) (h : Memory Cell)
    → IsFresh h
    → IsBalanced h (borrowed be has_cameras has_count s h)
unfolding ptpip_discover_cameras
ptpip_discover_cameras-ptpip_free_cameras be true true s h f =
    result-IsBalanced (discover_cameras be default_discovery_config s) _ h
      (discover_cameras-IsGood be (λ c. Unit {0}) default_discovery_config s
        (given_anything be s.hearings))
      f
ptpip_discover_cameras-ptpip_free_cameras be true false s h f = (negsuc 0, h, refl, λ q. refl)
ptpip_discover_cameras-ptpip_free_cameras be false has_count s h f = (negsuc 0, h, refl, λ q. refl)

-- A search that found cameras hands out an array at a new address with the cameras in their order,
-- and its length. The pointer to the name of a camera leads to that name, or is null if the name has
-- a NUL. The addresses in front of the array hold what they held. No cell lies behind the next
-- address before the call, and no call of `calloc` fails.
pub ptpip_discover_cameras_lem :
    (be : BigEndian) (out : Outputs) (s : Air) (c : DiscoveredCamera) (cs : List DiscoveredCamera)
    (h : Memory Cell)
    → (discover_cameras be default_discovery_config s).0 ≡ ok (c ∷ cs)
    → IsFresh h
    → h.allocations ≡ []
    → (h' : Memory Cell) × (ptpip_discover_cameras be true true out s h
        ≡ some
            ((pos 0, record { count = some (length (c ∷ cs)); cameras = some (some h.next) }), h'))
      × (h'.cell h.next ≡ some (c_cameras (infos_of (suc h.next) (c ∷ cs))))
      × Names h'.cell (suc h.next) (c ∷ cs)
      × ((q : ℕ) → q < h.next → h'.cell q ≡ h.cell q)
unfolding ptpip_discover_cameras
ptpip_discover_cameras_lem be out s c cs h e f a =
    let (h', q, r) =
      hand_out_lem c cs out [] h f (calloc_lem (c_cameras (zeroed (length (c ∷ cs)))) h a) in
    (
      h',
      rw e q,
      r.array,
      r.names,
      λ k l.
          r.kept k (omega arith) (λ n. omega (arith, n))
          ∙ set_other h.next k _ h.cell (λ n. omega (arith, n)),
    )

-- When cameras were found and `calloc` fails, the code is -3 and the memory is as before, but the
-- caller's count has been written while its pointer has not.
pub ptpip_discover_cameras-calloc :
    (be : BigEndian) (out : Outputs) (s : Air) (c : DiscoveredCamera) (cs : List DiscoveredCamera)
    (os : List Bool) (h : Memory Cell)
    → (discover_cameras be default_discovery_config s).0 ≡ ok (c ∷ cs)
    → h.allocations ≡ false ∷ os
    → ptpip_discover_cameras be true true out s h
      ≡ some
          ((negsuc 2, record out { count = some (length (c ∷ cs)) }), record h { allocations = os })
unfolding ptpip_discover_cameras hand_out calloc
ptpip_discover_cameras-calloc be out s c cs os h e a =
    rw (e, ==_ne (suc (length cs)) 0 (λ n. omega (arith, n)), a) refl
