-- ===== src/Foreign/Cameras/Owned.antt =====
-- src/discovery.rs: the memory that C callers own between a search and the call that frees it.
use pipop_core.Base.{
  ℕ, suc, ◌≤◌, ◌<◌, ◌≡◌, ◌≢◌, ◌∙◌, refl, ap, sym, Bool, true, false, Option, none, some, List, [],
  ◌∷◌, ◌++◌, Text, length, length-append, ==_ne, arith,
}
use mathlib.Core.Path.{subst}
use mathlib.Core.List.{append_assoc}
use pipop_core.Types.{DiscoveredCamera}
use pipop_core.Foreign.Memory.{Memory, set}
use pipop_core.Foreign.Cells.{CCameraInfo, Cell, c_string, c_cameras}
use pipop_core.Foreign.Strings.{has_nul, rust_str_to_c}
use pipop_core.Foreign.Strings.Laws.{IsFresh, set_same, rust_str_to_c_lem, rust_str_to_c_nul}
use pipop_core.Foreign.Cameras.{zeroed, zeroed_camera, c_camera, fill}
use pipop_core.Foreign.Cameras.Arrays.{write_camera_lem}

-- The pointer to a name, the next address behind it, and the memory with it. A name with a NUL is a
-- null pointer.
abbrev pub named : Bool → ℕ → Option ℕ
named true lo = none
named false lo = some lo

abbrev pub after : Bool → ℕ → ℕ
after true lo = lo
after false lo = suc lo

abbrev placed : Bool → Text → Memory Cell → Memory Cell
placed true t h = h
placed false t h = record h { next = suc h.next; cell = set h.next (some (c_string t)) h.cell }

pub set_other : (p q : ℕ) (c : Option Cell) (f : ℕ → Option Cell) → p ≢ q → set p c f q ≡ f q
set_other p q c f n = rw (==_ne p q n) refl

rust_str_to_c-placed :
    (b : Bool) (t : Text) (h : Memory Cell)
    → has_nul t ≡ b
    → rust_str_to_c t h ≡ some (named b h.next, placed b t h)
rust_str_to_c-placed true t h e = rust_str_to_c_nul t h e
rust_str_to_c-placed false t h e = rust_str_to_c_lem t h e

placed-next : (b : Bool) (t : Text) (h : Memory Cell) → (placed b t h).next ≡ after b h.next
placed-next true t h = refl
placed-next false t h = refl

placed-kept :
    (b : Bool) (t : Text) (h : Memory Cell) (q : ℕ) → q < h.next → (placed b t h).cell q ≡ h.cell q
placed-kept true t h q l = refl
placed-kept false t h q l = set_other h.next q (some (c_string t)) h.cell (λ e. omega (arith, e))

IsFresh-placed : (b : Bool) (t : Text) (h : Memory Cell) → IsFresh h → IsFresh (placed b t h)
IsFresh-placed true t h f = f
IsFresh-placed false t h f =
    λ q l. set_other h.next q (some (c_string t)) h.cell (λ e. omega (arith, e)) ∙ f q (omega arith)

pub after-le : (b : Bool) (lo : ℕ) → lo ≤ after b lo
after-le true lo = omega arith
after-le false lo = omega arith

-- The elements for cameras whose names begin at an address, and the address behind the last name.
abbrev pub infos_of : ℕ → List DiscoveredCamera → List CCameraInfo
infos_of lo [] = []
infos_of lo (c ∷ cs) =
    c_camera c (named (has_nul c.model_name) lo) ∷ infos_of (after (has_nul c.model_name) lo) cs

abbrev pub end_of : ℕ → List DiscoveredCamera → ℕ
end_of lo [] = lo
end_of lo (c ∷ cs) = end_of (after (has_nul c.model_name) lo) cs

-- The names stand in memory from the address on.
abbrev pub Names : (ℕ → Option Cell) → ℕ → List DiscoveredCamera → Type 0
Names f lo [] = Unit {0}
Names f lo (c ∷ cs) =
    (has_nul c.model_name ≡ false → f lo ≡ some (c_string c.model_name))
    × Names f (after (has_nul c.model_name) lo) cs

pub end_of-ge : (lo : ℕ) (cs : List DiscoveredCamera) → lo ≤ end_of lo cs
end_of-ge lo [] = omega arith
end_of-ge lo (c ∷ cs) =
    omega
      (arith, end_of-ge (after (has_nul c.model_name) lo) cs, after-le (has_nul c.model_name) lo)

-- What the loop that fills the array at `p` has done, with names from the address `lo` on.
pub record IsFilled (p : ℕ) (front : List CCameraInfo) (cs : List DiscoveredCamera) (lo : ℕ)
    (f : ℕ → Option Cell) (h' : Memory Cell) : Type 0 where
  pub array : h'.cell p ≡ some (c_cameras (front ++ infos_of lo cs))
  pub names : Names h'.cell lo cs
  pub kept : (q : ℕ) → q < lo → p ≢ q → h'.cell q ≡ f q
  pub fresh : IsFresh h'
  pub end : h'.next ≡ end_of lo cs

name_in_place :
    (b : Bool) (t : Text) (h : Memory Cell) (p : ℕ) (c : Cell) (f : ℕ → Option Cell)
    → p < h.next
    → ((q : ℕ) → q < after b h.next → p ≢ q → f q ≡ set p (some c) (placed b t h).cell q)
    → b ≡ false
    → f h.next ≡ some (c_string t)
name_in_place true t h p c f l k e = cc
name_in_place false t h p c f l k e =
    k h.next (omega arith) (λ n. omega (arith, n))
    ∙ set_other p h.next (some c) (set h.next (some (c_string t)) h.cell) (λ n. omega (arith, n))
    ∙ set_same h.next (some (c_string t)) h.cell

-- One more camera in front.
IsFilled-step :
    (p : ℕ) (front : List CCameraInfo) (c : DiscoveredCamera) (cs : List DiscoveredCamera)
    (h h' : Memory Cell) (old : Cell)
    → p < h.next
    → IsFilled p
        (front ++ (c_camera c (named (has_nul c.model_name) h.next) ∷ []))
        cs
        (after (has_nul c.model_name) h.next)
        (set p (some old) (placed (has_nul c.model_name) c.model_name h).cell)
        h'
    → IsFilled p front (c ∷ cs) h.next h.cell h'
IsFilled-step p front c cs h h' old l r =
    let b = has_nul c.model_name in
    record {
      array =
          r.array
          ∙ ap (λ xs. some (c_cameras xs))
              (append_assoc front (c_camera c (named b h.next) ∷ [])
                (infos_of (after b h.next) cs));
      names = (name_in_place b c.model_name h p old h'.cell l r.kept, r.names);
      kept = λ q k n.
          r.kept q (omega (arith, after-le b h.next)) n
          ∙ set_other p q (some old) (placed b c.model_name h).cell n
          ∙ placed-kept b c.model_name h q k;
      fresh = r.fresh;
      end = r.end;
    }

pub one_more :
    (front : List CCameraInfo) (d : CCameraInfo) (rest : List CCameraInfo)
    → some (c_cameras (front ++ (d ∷ rest))) ≡ some (c_cameras ((front ++ (d ∷ [])) ++ rest))
one_more front d rest = ap (λ xs. some (c_cameras xs)) (sym (append_assoc front (d ∷ []) rest))

-- The loop fills the array that `calloc` returned, and puts the names behind it.
pub fill_lem :
    (p i : ℕ) (front : List CCameraInfo) (cs : List DiscoveredCamera) (h : Memory Cell)
    → p < h.next
    → i ≡ length front
    → IsFresh h
    → h.cell p ≡ some (c_cameras (front ++ zeroed (length cs)))
    → (h' : Memory Cell) × (fill p i cs h ≡ some (tt, h')) × IsFilled p front cs h.next h.cell h'
unfolding fill
fill_lem p i front [] h l e f a =
    (h, refl, record { array = a; names = tt; kept = λ q k n. refl; fresh = f; end = refl })
fill_lem p i front (c ∷ cs) h l e f a =
    let b = has_nul c.model_name in
    let h₁ = placed b c.model_name h in
    let d = c_camera c (named b h.next) in
    let cell₂ = set p (some (c_cameras (front ++ (d ∷ zeroed (length cs))))) h₁.cell in
    let n₁ = placed-next b c.model_name h in
    let g = after-le b h.next in
    let (h', q, r) =
      fill_lem p (suc i) (front ++ (d ∷ [])) cs (record h₁ { cell = cell₂ }) (omega (arith, n₁, g))
        (omega (arith, e, length-append front (d ∷ [])))
        (λ q k.
          set_other p q _ h₁.cell (λ n. omega (arith, n, k, n₁, g))
          ∙ IsFresh-placed b c.model_name h f q k)
        (set_same p _ h₁.cell ∙ one_more front d (zeroed (length cs))) in
    (
      h',
      rw
          (
            rust_str_to_c-placed b c.model_name h refl,
            write_camera_lem p i front zeroed_camera d (zeroed (length cs)) h₁ e
                (placed-kept b c.model_name h p l ∙ a),
          )
          q,
      IsFilled-step p front c cs h h' _ l
          (subst (λ n. IsFilled p (front ++ (d ∷ [])) cs n cell₂ h') n₁ r),
    )
