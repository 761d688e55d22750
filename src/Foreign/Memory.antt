-- ===== src/Foreign/Memory.antt =====
-- What the program uses of C memory: `CString`, `CStr`, `libc::calloc`, `libc::free` and pointers of
-- `Arc`. Memory has cells by their addresses, and a use that is undefined behaviour is a fault.
use pipop_core.Base.{
  ℕ, suc, Bool, true, false, Option, none, some, List, [], ◌∷◌, ◌==◌, if◌then◌else◌,
}

-- The numbers that functions for C callers return.
pub data ℤ : Type 0 where
  pos : ℕ → ℤ
  negsuc : ℕ → ℤ

-- A null pointer is `none`. `allocations` says how the coming calls of `calloc` go; those behind its
-- end succeed. The other allocations abort the program where they fail.
pub record Memory (C : Type 0) : Type 0 where
  pub next : ℕ
  pub cell : ℕ → Option C
  pub allocations : List Bool

-- `none` is undefined behaviour, such as the use of a pointer that was freed.
abbrev pub Foreign : Type 0 → Type 0 → Type 0
Foreign C A = Memory C → Option (A × Memory C)

abbrev pub defined : {A B : Type 0} → Option A → (A → Option B) → Option B
defined none f = none
defined (some a) f = f a

abbrev pub set : {C : Type 0} → ℕ → Option C → (ℕ → Option C) → ℕ → Option C
set p c f q = if p == q then c else f q

module _ {C : Type 0} where
  abbrev pub pure : {A : Type 0} → A → Foreign C A
  pure a h = some (a, h)

  infixl 5 ◌>>=◌ ◌>>◌
  abbrev pub ◌>>=◌ : {A B : Type 0} → Foreign C A → (A → Foreign C B) → Foreign C B
  ◌>>=◌ m f h = defined (m h) λ (a, h'). f a h'

  abbrev pub ◌>>◌ : {A B : Type 0} → Foreign C A → Foreign C B → Foreign C B
  m >> k = m >>= λ _. k

  -- A new cell, such as `CString::into_raw` and `Arc::into_raw` leave behind.
  unfoldable pub place : C → Foreign C ℕ
  place c h = some (h.next, record h { next = suc h.next; cell = set h.next (some c) h.cell })

  unfoldable pub load : ℕ → Foreign C C
  load p h = defined (h.cell p) λ c. some (c, h)

  -- A write to a cell that is there.
  unfoldable pub store : ℕ → C → Foreign C (Unit {0})
  store p c h = defined (h.cell p) λ old. some (tt, record h { cell = set p (some c) h.cell })

  -- `from_raw` and `libc::free`: the cell is gone.
  unfoldable pub release : ℕ → Foreign C (Unit {0})
  release p h = defined (h.cell p) λ old. some (tt, record h { cell = set p none h.cell })

  abbrev allocated : List Bool → C → Foreign C (Option ℕ)
  allocated [] c h = defined (place c h) λ (p, h'). some (some p, h')
  allocated (true ∷ os) c h =
      defined (place c (record h { allocations = os })) λ (p, h'). some (some p, h')
  allocated (false ∷ os) c h = some (none, record h { allocations = os })

  -- `libc::calloc`, which returns a null pointer where it fails.
  unfoldable pub calloc : C → Foreign C (Option ℕ)
  unfolding place
  calloc c h = allocated h.allocations c h
