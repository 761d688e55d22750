-- ===== src/Foreign/Cameras/Arrays.antt =====
-- src/discovery.rs: the elements of the array that C callers get.
use pipop_core.Base.{ℕ, ◌≡◌, refl, ap, some, List, [], ◌∷◌, ◌++◌, length}
use pipop_core.Foreign.Memory.{Memory, set, defined, store, load}
use pipop_core.Foreign.Cells.{CCameraInfo, Cell, c_cameras}
use pipop_core.Foreign.Cameras.{camera_in, in_front, replaced, array_at, read_camera, write_camera}

camera_in-append :
    (xs : List CCameraInfo) (c : CCameraInfo) (ys : List CCameraInfo)
    → camera_in (length xs) (xs ++ (c ∷ ys)) ≡ some c
unfolding camera_in
camera_in-append [] c ys = refl
camera_in-append (x ∷ xs) c ys = camera_in-append xs c ys

replaced-append :
    (xs : List CCameraInfo) (c d : CCameraInfo) (ys : List CCameraInfo)
    → replaced (length xs) d (xs ++ (c ∷ ys)) ≡ some (xs ++ (d ∷ ys))
unfolding replaced
replaced-append [] c d ys = refl
replaced-append (x ∷ xs) c d ys = ap (in_front x) (replaced-append xs c d ys)

array_at_lem :
    (p : ℕ) (cs : List CCameraInfo) (h : Memory Cell)
    → h.cell p ≡ some (c_cameras cs)
    → array_at p h ≡ some (cs, h)
unfolding array_at load
array_at_lem p cs h e = rw e refl

-- The element behind the first ones is read, and written.
pub read_camera_lem :
    (p i : ℕ) (xs : List CCameraInfo) (c : CCameraInfo) (ys : List CCameraInfo) (h : Memory Cell)
    → i ≡ length xs
    → h.cell p ≡ some (c_cameras (xs ++ (c ∷ ys)))
    → read_camera p i h ≡ some (c, h)
unfolding read_camera
read_camera_lem p i xs c ys h l e =
    rw (array_at_lem p (xs ++ (c ∷ ys)) h e, l, camera_in-append xs c ys) refl

pub write_camera_lem :
    (p i : ℕ) (xs : List CCameraInfo) (c d : CCameraInfo) (ys : List CCameraInfo) (h : Memory Cell)
    → i ≡ length xs
    → h.cell p ≡ some (c_cameras (xs ++ (c ∷ ys)))
    → write_camera p i d h
      ≡ some (tt, record h { cell = set p (some (c_cameras (xs ++ (d ∷ ys)))) h.cell })
unfolding write_camera store
write_camera_lem p i xs c d ys h l e =
    rw (array_at_lem p (xs ++ (c ∷ ys)) h e, l, replaced-append xs c d ys)
      (ap
        (λ o.
          defined o
            λ old. some (tt, record h { cell = set p (some (c_cameras (xs ++ (d ∷ ys)))) h.cell }))
        e)
