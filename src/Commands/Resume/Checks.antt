-- ===== src/Commands/Resume/Checks.antt =====
-- src/commands.rs: what `check_resume_state` finds, whatever fails.
use pipop_core.Base.{
  ℕ, ◌≡◌, refl, ap, sym, ◌∙◌, Option, none, some, Bytes, Text, Result, ok, length, take, take-all,
  not, ◌==◌, ==_iff, leb, if◌then◌else◌, arith,
}
use pipop_core.Error.{PtpIpError}
use pipop_core.Utf8.{from_utf8, from_utf8_lossy}
use pipop_core.Str.{trim, parse_usize}
use pipop_core.Files.{
  fine, first_outcome, is_there, PathBuf, exists, open_file, read_to_string, file_len,
}
use pipop_core.Files.Rules.{
  exists-Does, exists-fine-Does, Files, open_file-Does, read_to_string-Does, file_len-Does,
}
use pipop_core.Commands.World.{World, on_disk, pure, ◌>>=◌}
use pipop_core.Commands.World.Outcomes.{Ensures, if-Ensures, on_disk-Ensures}
use pipop_core.Base.{false}
use pipop_core.Commands.Resume.{
  get_temp_path, get_resume_path, offset_of, restart, promote, go_on, from_resume_point,
  from_beginning, from_parts, from_target, check_resume_state,
}
use pipop_core.Commands.Resume.Parts.{recorded}
use pipop_core.Commands.Resume.Started
use pipop_core.Commands.Resume.Started.{
  complete, same_length, not_equal, same_size, not_there, after, after_file, restart-Starts,
  from_beginning-Starts, promote-Starts, go_on-Starts,
}

module _ (save_path : PathBuf) (name : Text) (named : save_path.file_name ≡ some name)
    (valid : from_utf8_lossy name ≡ name) (object : Bytes) where
  abbrev temp : PathBuf
  temp = get_temp_path save_path

  abbrev Ready : Files → Type 0
  Ready = Started.Ready save_path name named valid object

  abbrev Before : Files → Type 0
  Before = Started.Before save_path name named valid object

  abbrev pub Starts : Result PtpIpError (ℕ × PathBuf) × World → Type 0
  Starts = Started.Starts save_path name named valid object

  abbrev Whole : Files → Type 0
  Whole = Started.Whole save_path name named valid object

  -- The record was read, and parsed.
  abbrev Parsed : ℕ → Files → Type 0
  Parsed n f =
      Before f × ((r : Bytes) × (f (get_resume_path save_path) ≡ some r) × (recorded r ≡ some n))

  offset_of-Parsed :
      (o : Option ℕ) (w : World)
      → Ready w.disk.files
      → ((n : ℕ) → o ≡ some n → Parsed n w.disk.files)
      → Ensures (λ n w'. Parsed n w'.disk.files) (λ w'. Ready w'.disk.files) (offset_of o w)
  offset_of-Parsed none w k h = k
  offset_of-Parsed (some n) w k h = h n refl

  -- The temporary file has the recorded length.
  fitting-Starts :
      (n : ℕ) (t : Bytes) (w : World)
      → Parsed n w.disk.files
      → w.disk.files temp ≡ some t
      → length t ≡ n
      → Starts (
          (if leb (length object) n then promote save_path (length object) else go_on save_path n)
            w)
  fitting-Starts n t w (b, (r, e, v)) f l =
      let front : t ≡ take n object = rw l at (b.0.front t r f e (rw l v)) in
      if-Ensures _ _ (leb (length object) n) (promote save_path (length object)) (go_on save_path n)
        w
        (λ g.
          promote-Starts save_path name named valid object w b.0
            (f ∙ ap some (front ∙ take-all n object (ground arith))))
        (λ g.
          go_on-Starts save_path name named valid object n w b (ground arith) (f ∙ ap some front))

  from_resume_point-Starts :
      (w : World) → Before w.disk.files → Starts (from_resume_point save_path (length object) w)
  unfolding from_resume_point
  from_resume_point-Starts w h =
      after_file save_path name named valid object
        (λ t f.
          Before f
          × ((r : Bytes) × (f (get_resume_path save_path) ≡ some r) × (from_utf8 r ≡ ok t)))
        (read_to_string (get_resume_path save_path)) _ w
        (read_to_string-Does _ _ (get_resume_path save_path) w.disk h.0 λ r t e u. (h, (r, e, u)))
        λ t w' (b, (r, e, u)).
          after save_path name named valid object Parsed (offset_of (parse_usize (trim t))) _ w'
            (offset_of-Parsed (parse_usize (trim t)) w' b.0 λ n g. (b, (r, e, rw u g)))
            λ n w'' p.
              after_file save_path name named valid object
                (λ len f. Parsed n f × ((bs : Bytes) × (f temp ≡ some bs) × (length bs ≡ len)))
                (file_len temp) _ w''
                (file_len-Does _ _ temp w''.disk p.0.0 λ bs g. (p, (bs, g, refl)))
                λ len w₃ (p₃, (bs, g, l)).
                  if-Ensures _ _ (not (len == n)) (restart save_path) _ w₃
                    (λ d. restart-Starts save_path name named valid object w₃ p₃.0)
                    (λ d. fitting-Starts n bs w₃ p₃ g (l ∙ same_length len n d))

  from_parts-Starts :
      (w : World) → Before w.disk.files → Starts (from_parts save_path (length object) w)
  unfolding from_parts
  from_parts-Starts w h =
      after_file save_path name named valid object (λ recorded f. Before f)
        (exists (get_resume_path save_path)) _ w
        (exists-Does _ _ (get_resume_path save_path) w.disk λ b. h)
        λ r w₁ h₁.
          after save_path name named valid object (λ both f. Before f)
            (if r then on_disk (exists temp) else pure false) _ w₁
            (if-Ensures _ _ r (on_disk (exists temp)) (pure false) w₁
              (λ e.
                on_disk-Ensures (λ both f. Before f) Ready (exists temp) w₁
                  (exists-Does _ _ temp w₁.disk λ b. h₁))
              (λ e. h₁))
            λ both w₂ h₂.
              if-Ensures _ _ both (from_resume_point save_path (length object))
                (from_beginning save_path) w₂ (λ e. from_resume_point-Starts w₂ h₂)
                (λ e. from_beginning-Starts save_path name named valid object w₂ h₂)

  from_target-Starts :
      (w : World) → Ready w.disk.files → Starts (from_target save_path (length object) w)
  unfolding from_target
  from_target-Starts w h =
      after_file save_path name named valid object
        (λ len f. Ready f × ((bs : Bytes) × (f save_path ≡ some bs) × (length bs ≡ len)))
        (file_len save_path) _ w (file_len-Does _ _ save_path w.disk h λ bs e. (h, (bs, e, refl)))
        λ len w' (r, (bs, e, l)).
          if-Ensures _ _ (len == length object)
            (on_disk (open_file save_path) >>= λ file. pure (length object, file))
            (from_parts save_path (length object)) w'
            (λ g.
              let whole = r.settled bs e (l ∙ (==_iff len (length object)).0 g) in
              after_file save_path name named valid object (λ file f. Whole f) (open_file save_path)
                _ w'
                (open_file-Does _ _ save_path w'.disk r λ bs' e'. (e ∙ ap some whole.0, whole.1))
                λ file w'' b. complete refl b.0 b.1)
            (λ g. from_parts-Starts w' (
              r,
              λ s e' l'. not_equal len (length object) g (sym l ∙ same_size bs s (sym e ∙ e') ∙ l'),
            ))

  -- From sound files, and for a target whose name is valid UTF-8, `check_resume_state` ends,
  -- whatever calls on the files fail but the first, which asks whether the target exists. Where it
  -- fails, the files are sound; where it succeeds, the object is in its place already, or the target
  -- is not complete and the temporary file holds the object's first bytes, as many as the offset
  -- says.
  pub check_resume_state-Starts :
      (w : World)
      → first_outcome w.disk.outcomes ≡ fine
      → Ready w.disk.files
      → Starts (check_resume_state save_path (length object) w)
  unfolding check_resume_state
  check_resume_state-Starts w o h =
      after_file save_path name named valid object
        (λ there f. Ready f × (there ≡ is_there (f save_path))) (exists save_path) _ w
        (exists-fine-Does _ _ save_path w.disk o (h, refl))
        λ there w' (h', t).
          if-Ensures _ _ there (from_target save_path (length object))
            (from_parts save_path (length object)) w' (λ e. from_target-Starts w' h')
            (λ e.
              from_parts-Starts w'
                (h', λ s e' l. not_there (w'.disk.files save_path) s (sym t ∙ e) e'))
