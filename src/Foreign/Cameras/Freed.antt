-- ===== src/Foreign/Cameras/Freed.antt =====
-- src/discovery.rs: the call that frees the cameras.
use pipop_core.Base.{
  ℕ, suc, ◌≤◌, ◌<◌, ◌≡◌, ◌∙◌, refl, ap, Bool, true, false, Option, none, some, List, [], ◌∷◌, ◌++◌,
  Text, length, length-append, arith,
}
use native.Mathlib.Decide.{dec_lt}
use pipop_core.Types.{DiscoveredCamera}
use pipop_core.Foreign.Memory.{Memory, set}
use pipop_core.Foreign.Cells.{CCameraInfo, Cell, c_string, c_cameras}
use pipop_core.Foreign.Strings.{has_nul, drop_string}
use pipop_core.Foreign.Strings.Laws.{set_same, drop_string_lem}
use pipop_core.Foreign.Cameras.{c_camera, drop_names}
use pipop_core.Foreign.Cameras.Arrays.{read_camera_lem}
use pipop_core.Foreign.Cameras.Owned.{
  named, after, after-le, set_other, infos_of, end_of, end_of-ge, Names, one_more,
}

-- The memory without a name.
abbrev dropped : Bool → ℕ → Memory Cell → Memory Cell
dropped true lo h = h
dropped false lo h = record h { cell = set lo none h.cell }

drop_string-named :
    (b : Bool) (t : Text) (lo : ℕ) (h : Memory Cell)
    → (b ≡ false → h.cell lo ≡ some (c_string t))
    → drop_string (named b lo) h ≡ some (tt, dropped b lo h)
unfolding drop_string
drop_string-named true t lo h e = refl
drop_string-named false t lo h e = drop_string_lem lo t h (e refl)

dropped-below :
    (b : Bool) (lo q : ℕ) (h : Memory Cell) → q < lo → (dropped b lo h).cell q ≡ h.cell q
dropped-below true lo q h l = refl
dropped-below false lo q h l = set_other lo q none h.cell (λ e. omega (arith, e))

dropped-above :
    (b : Bool) (lo q : ℕ) (h : Memory Cell) → after b lo ≤ q → (dropped b lo h).cell q ≡ h.cell q
dropped-above true lo q h l = refl
dropped-above false lo q h l = set_other lo q none h.cell (λ e. omega (arith, e))

dropped-here :
    (b : Bool) (lo q : ℕ) (h : Memory Cell)
    → lo ≤ q
    → q < after b lo
    → (dropped b lo h).cell q ≡ none
dropped-here true lo q h l k = absurd (omega arith)
dropped-here false lo q h l k =
    let e : q ≡ lo = omega arith in ap (set lo none h.cell) e ∙ set_same lo none h.cell

Names-same :
    (f g : ℕ → Option Cell) (lo : ℕ) (cs : List DiscoveredCamera)
    → ((q : ℕ) → lo ≤ q → g q ≡ f q)
    → Names f lo cs
    → Names g lo cs
Names-same f g lo [] e h = tt
Names-same f g lo (c ∷ cs) e (h, r) = (
  λ b. e lo (omega arith) ∙ h b,
  Names-same f g (after (has_nul c.model_name) lo) cs
      (λ q l. e q (omega (arith, after-le (has_nul c.model_name) lo))) r,
)

-- What the loop that frees the names has done.
pub record AreDropped (lo : ℕ) (cs : List DiscoveredCamera) (f g : ℕ → Option Cell) : Type 0 where
  pub below : (q : ℕ) → q < lo → g q ≡ f q
  pub gone : (q : ℕ) → lo ≤ q → q < end_of lo cs → g q ≡ none
  pub above : (q : ℕ) → end_of lo cs ≤ q → g q ≡ f q

AreDropped-step :
    (lo : ℕ) (c : DiscoveredCamera) (cs : List DiscoveredCamera) (h : Memory Cell)
    (g : ℕ → Option Cell)
    → AreDropped (after (has_nul c.model_name) lo) cs (dropped (has_nul c.model_name) lo h).cell g
    → AreDropped lo (c ∷ cs) h.cell g
AreDropped-step lo c cs h g r =
    let b = has_nul c.model_name in
    record {
      below = λ q l. r.below q (omega (arith, after-le b lo)) ∙ dropped-below b lo q h l;
      gone = λ q l k. elim (dec_lt q (after b lo)) [
        | yes m ↦ r.below q m ∙ dropped-here b lo q h l m
        | no m ↦ r.gone q (omega arith) k
      ];
      above =
          λ q l. r.above q l ∙ dropped-above b lo q h (omega (arith, end_of-ge (after b lo) cs));
    }

-- The loop frees the names that stand in memory, and nothing else.
pub drop_names_lem :
    (p i lo : ℕ) (front : List CCameraInfo) (cs : List DiscoveredCamera) (h : Memory Cell)
    → p < lo
    → i ≡ length front
    → h.cell p ≡ some (c_cameras (front ++ infos_of lo cs))
    → Names h.cell lo cs
    → (h' : Memory Cell) × (drop_names p i (length cs) h ≡ some (tt, h'))
      × AreDropped lo cs h.cell h'.cell
unfolding drop_names c_camera
drop_names_lem p i lo front [] h l e a n = (
  h,
  refl,
  record { below = λ q k. refl; gone = λ q k m. absurd (omega arith); above = λ q k. refl },
)
drop_names_lem p i lo front (c ∷ cs) h l e a n =
    let b = has_nul c.model_name in
    let d = c_camera c (named b lo) in
    let lo' = after b lo in
    let (h', q, r) =
      drop_names_lem p (suc i) lo' (front ++ (d ∷ [])) cs (dropped b lo h)
        (omega (arith, after-le b lo)) (omega (arith, e, length-append front (d ∷ [])))
        (dropped-below b lo p h l ∙ a ∙ one_more front d (infos_of lo' cs))
        (Names-same h.cell (dropped b lo h).cell lo' cs (λ q k. dropped-above b lo q h k) n.1) in
    (
      h',
      rw
          (
            read_camera_lem p i front d (infos_of lo' cs) h e a,
            drop_string-named b c.model_name lo h n.0,
          )
          q,
      AreDropped-step lo c cs h h'.cell r,
    )
