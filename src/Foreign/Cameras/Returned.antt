-- ===== src/Foreign/Cameras/Returned.antt =====
-- src/discovery.rs: a search for a C caller, and the call that frees what it found.
use pipop_core.Base.{
  ℕ, suc, ◌≡◌, ◌∙◌, refl, ap, sym, Bool, none, some, List, [], ◌∷◌, length, ==_ne, arith,
}
use native.Mathlib.Decide.{dec_lt}
use pipop_core.Types.{DiscoveredCamera}
use pipop_core.Foreign.Memory.{pos, Memory, set, calloc}
use pipop_core.Foreign.Cells.{Cell, c_cameras}
use pipop_core.Foreign.Strings.Laws.{IsFresh, set_same, release_lem}
use pipop_core.Foreign.Cameras.{Outputs, zeroed, hand_out, ptpip_free_cameras}
use pipop_core.Foreign.Cameras.Owned.{set_other, infos_of, end_of, Names, IsFilled, fill_lem}
use pipop_core.Foreign.Cameras.Freed.{AreDropped, drop_names_lem}

-- The memory where `calloc` put the array, and how the later calls of `calloc` go.
abbrev pub with_array : ℕ → List Bool → Memory Cell → Memory Cell
with_array n os h = record {
  next = suc h.next;
  cell = set h.next (some (c_cameras (zeroed n))) h.cell;
  allocations = os;
}

IsFresh-with_array :
    (n : ℕ) (os : List Bool) (h : Memory Cell) → IsFresh h → IsFresh (with_array n os h)
IsFresh-with_array n os h f =
    λ q l. set_other h.next q _ h.cell (λ e. omega (arith, e)) ∙ f q (omega arith)

-- A search that found cameras gives the caller an array at a new address. It has the cameras in
-- their order, and the pointer to each name leads to that name.
pub hand_out_lem :
    (c : DiscoveredCamera) (cs : List DiscoveredCamera) (out : Outputs) (os : List Bool)
    (h : Memory Cell)
    → IsFresh h
    → calloc (c_cameras (zeroed (length (c ∷ cs)))) h
      ≡ some (some h.next, with_array (length (c ∷ cs)) os h)
    → (h' : Memory Cell) × (hand_out (c ∷ cs) out h
        ≡ some
            ((pos 0, record { count = some (length (c ∷ cs)); cameras = some (some h.next) }), h'))
      × IsFilled h.next [] (c ∷ cs) (suc h.next) (with_array (length (c ∷ cs)) os h).cell h'
unfolding hand_out
hand_out_lem c cs out os h f a =
    let n = length (c ∷ cs) in
    let (h', q, r) =
      fill_lem h.next 0 [] (c ∷ cs) (with_array n os h) (omega arith) refl
        (IsFresh-with_array n os h f) (set_same h.next _ h.cell) in
    (h', rw (==_ne (suc (length cs)) 0 (λ e. omega (arith, e)), a, q) refl, r)

-- The call that frees them needs the array, and the names behind it.
pub ptpip_free_cameras_lem :
    (p : ℕ) (c : DiscoveredCamera) (cs : List DiscoveredCamera) (h : Memory Cell)
    → h.cell p ≡ some (c_cameras (infos_of (suc p) (c ∷ cs)))
    → Names h.cell (suc p) (c ∷ cs)
    → (g : Memory Cell) × (ptpip_free_cameras (some p) (length (c ∷ cs)) h
        ≡ some (tt, record g { cell = set p none g.cell }))
      × AreDropped (suc p) (c ∷ cs) h.cell g.cell
unfolding ptpip_free_cameras
ptpip_free_cameras_lem p c cs h a n =
    let (g, q, r) = drop_names_lem p 0 (suc p) [] (c ∷ cs) h (omega arith) refl a n in
    (
      g,
      rw
          (
            ==_ne (suc (length cs)) 0 (λ e. omega (arith, e)),
            q,
            release_lem p _ g (r.below p (omega arith) ∙ a),
          )
          refl,
      r,
    )

-- Each address holds after the calls what it held before them.
pub cell_as_before :
    (c : DiscoveredCamera) (cs : List DiscoveredCamera) (os : List Bool) (h h' g : Memory Cell)
    → IsFresh h
    → IsFilled h.next [] (c ∷ cs) (suc h.next) (with_array (length (c ∷ cs)) os h).cell h'
    → AreDropped (suc h.next) (c ∷ cs) h'.cell g.cell
    → (q : ℕ) → set h.next none g.cell q ≡ h.cell q
cell_as_before c cs os h h' g f r d q =
    let p = h.next in
    let hi = end_of (suc p) (c ∷ cs) in
    elim (dec_lt q p) [
      | yes l ↦
          set_other p q none g.cell (λ e. omega (arith, e))
          ∙ d.below q (omega arith)
          ∙ r.kept q (omega arith) (λ e. omega (arith, e))
          ∙ set_other p q _ h.cell (λ e. omega (arith, e))
      | no l ↦ elim (dec_lt p q) [
        | no m ↦
            let e : q ≡ p = omega arith in
            ap (set p none g.cell) e
            ∙ set_same p none g.cell
            ∙ sym (f p (omega arith))
            ∙ ap h.cell (sym e)
        | yes m ↦ set_other p q none g.cell (λ e. omega (arith, e)) ∙ elim (dec_lt q hi) [
          | yes k ↦ d.gone q (omega arith) k ∙ sym (f q (omega arith))
          | no k ↦
              d.above q (omega arith) ∙ r.fresh q (omega (arith, r.end)) ∙ sym (f q (omega arith))
        ]
      ]
    ]
