-- ===== src/Files/Store.antt =====
-- Which file a path names.
use pipop_core.Base.{
  ◌≡◌, ◌≢◌, refl, Option, some, none, [], ◌∷◌, Text, length, true, false, arith, ==_refl,
}
use pipop_core.Files.{PathBuf, same_text, same_name, same_path}

pub same_text_refl : (t : Text) → same_text t t ≡ true
unfolding same_text
same_text_refl [] = refl
same_text_refl (c ∷ cs) = rw (==_refl c, same_text_refl cs)

pub same_text_ne : (s t : Text) → length s ≢ length t → same_text s t ≡ false
unfolding same_text
same_text_ne [] [] h = absurd (h refl)
same_text_ne [] (d ∷ ds) h = refl
same_text_ne (c ∷ cs) [] h = refl
same_text_ne (c ∷ cs) (d ∷ ds) h = ground (arith, same_text_ne cs ds (λ e. h (omega (arith, e))))

same_name_refl : (o : Option Text) → same_name o o ≡ true
unfolding same_name
same_name_refl none = refl
same_name_refl (some t) = same_text_refl t

pub same_path_refl : (p : PathBuf) → same_path p p ≡ true
unfolding same_path
same_path_refl p = rw (same_text_refl p.parent, same_name_refl p.file_name)

-- Names of different lengths in one place.
pub same_path_ne :
    (p q : PathBuf) (s t : Text)
    → p.file_name ≡ some s
    → q.file_name ≡ some t
    → length s ≢ length t
    → same_path p q ≡ false
unfolding same_path same_name
same_path_ne p q s t e f h = rw (e, f, same_text_ne s t h) ground arith
