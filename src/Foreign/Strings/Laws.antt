-- ===== src/Foreign/Strings/Laws.antt =====
-- src/utils.rs: a string that is handed to a C caller is read back.
use pipop_core.Base.{
  ℕ, suc, ◌≤◌, ◌≡◌, refl, sym, ap, ◌∙◌, true, false, Option, none, some, Bytes, Text, ok,
  Bool-cases, inl, inr, ◌==◌, ==_refl, if◌then◌else◌, arith,
}
use pipop_core.Utf8.{from_utf8}
use pipop_core.Foreign.Memory.{Memory, Foreign, place, load, release, set, pure, ◌>>=◌}
use pipop_core.Foreign.Cells.{Cell, c_string}
use pipop_core.Foreign.Strings.{has_nul, rust_str_to_c, string_at, c_str_to_rust, drop_string}

-- No cell lies behind the next address.
abbrev pub IsFresh : Memory Cell → Type 0
IsFresh h = (q : ℕ) → h.next ≤ q → h.cell q ≡ none

-- A call of `rust_str_to_c`, then one of `c_str_to_rust`, and then the string is freed: without a NUL
-- the text comes back, with one it is lost, and in either case the memory is as before.
abbrev pub handed_over : Text → Foreign Cell (Option Text)
handed_over t = rust_str_to_c t >>= λ p. c_str_to_rust p >>= λ r. drop_string p >>= λ u. pure r

restored :
    (f : ℕ → Option Cell) (p : ℕ) (c : Cell) (q : ℕ)
    → f p ≡ none
    → set p none (set p (some c) f) q ≡ f q
restored f p c q e = elim (Bool-cases (p == q)) [
  | inl b ↦ let d : p ≡ q = ground arith in rw b (sym e ∙ ap f d)
  | inr b ↦ rw b refl
]

pub set_same : (p : ℕ) (c : Option Cell) (f : ℕ → Option Cell) → set p c f p ≡ c
set_same p c f = rw (==_refl p) refl

-- A pointer to a string, where it is used, and where it is freed.
pub string_at_lem :
    (p : ℕ) (bs : Bytes) (h : Memory Cell)
    → h.cell p ≡ some (c_string bs)
    → string_at p h ≡ some (bs, h)
unfolding string_at load
string_at_lem p bs h e = rw e refl

pub release_lem :
    (p : ℕ) (c : Cell) (h : Memory Cell)
    → h.cell p ≡ some c
    → release p h ≡ some (tt, record h { cell = set p none h.cell })
unfolding release
release_lem p c h e = rw e refl

pub drop_string_lem :
    (p : ℕ) (bs : Bytes) (h : Memory Cell)
    → h.cell p ≡ some (c_string bs)
    → drop_string (some p) h ≡ some (tt, record h { cell = set p none h.cell })
unfolding drop_string
drop_string_lem p bs h e = rw (string_at_lem p bs h e) (release_lem p (c_string bs) h e)

c_str_to_rust_lem :
    (p : ℕ) (t : Text) (h : Memory Cell)
    → h.cell p ≡ some (c_string t)
    → from_utf8 t ≡ ok t
    → c_str_to_rust (some p) h ≡ some (some t, h)
unfolding c_str_to_rust
c_str_to_rust_lem p t h e v = rw (string_at_lem p t h e, v) refl

-- The string takes the next address.
pub rust_str_to_c_lem :
    (t : Text) (h : Memory Cell)
    → has_nul t ≡ false
    → rust_str_to_c t h
      ≡ some (
        some h.next,
        record h { next = suc h.next; cell = set h.next (some (c_string t)) h.cell },
      )
unfolding rust_str_to_c place
rust_str_to_c_lem t h b = rw b refl

pub rust_str_to_c_nul :
    (t : Text) (h : Memory Cell) → has_nul t ≡ true → rust_str_to_c t h ≡ some (none, h)
unfolding rust_str_to_c
rust_str_to_c_nul t h b = rw b refl

-- A text of valid UTF-8 that is handed to a C caller comes back if it has no NUL, and is lost if it
-- has one. When the caller has given the string back, each address holds what it held. No cell lies
-- behind the next address before the calls.
pub rust_str_to_c-c_str_to_rust :
    (t : Text) (h : Memory Cell)
    → from_utf8 t ≡ ok t
    → IsFresh h
    → (h' : Memory Cell) × (handed_over t h ≡ some (if has_nul t then none else some t, h'))
      × ((q : ℕ) → h'.cell q ≡ h.cell q)
unfolding c_str_to_rust drop_string
rust_str_to_c-c_str_to_rust t h v f = elim (Bool-cases (has_nul t)) [
  | inl b ↦ (h, rw (rust_str_to_c_nul t h b, b) refl, λ q. refl)
  | inr b ↦
      let filled = set h.next (some (c_string t)) h.cell in
      let g : Memory Cell = record h { next = suc h.next; cell = filled } in
      let e = set_same h.next (some (c_string t)) h.cell in
      (
        record g { cell = set h.next none filled },
        rw
            (
              rust_str_to_c_lem t h b,
              c_str_to_rust_lem h.next t g e v,
              drop_string_lem h.next t g e,
              b,
            )
            refl,
        λ q. restored h.cell h.next (c_string t) q (f h.next (omega arith)),
      )
]
