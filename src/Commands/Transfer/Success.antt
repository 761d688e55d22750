-- ===== src/Commands/Transfer/Success.antt =====
-- src/commands.rs: a download that nothing disturbs succeeds.
use pipop_core.Base.{
  ℕ, zero, suc, ◌+◌, ◌-◌, ◌%◌, ◌^◌, ◌≤◌, ◌<◌, ◌≡◌, ◌∙◌, refl, ap, Option, none, some, List, [],
  ◌++◌, Bytes, Text, Result, ok, length, take, drop, take-add, length-take, length-drop, true, not,
  ◌==◌, ltb, arith,
}
use pipop_core.Error.{PtpIpError}
use pipop_core.Utf8.{from_utf8_lossy}
use pipop_core.Types.{DownloadStats}
use pipop_core.Net.{Wire}
use pipop_core.Files.{PathBuf, create, write_all, write_file, guarded}
use pipop_core.Files.Store.{same_path_refl}
use pipop_core.Commands.World.{World, Report, on_disk, pure, counted}
use pipop_core.Commands.World.Outcomes.{Ensures, resume-Ensures, if-Ensures}
use pipop_core.Commands.Resume.{get_temp_path, get_resume_path, save_resume_state}
use pipop_core.Commands.Resume.Parts.{resume-ne-temp}
use pipop_core.Commands.Transfer.{
  ChunkDownloadConfig, Fetch, next_chunk_size, next_checkpoint, report_at, store_chunk, one_chunk,
  transfer_loop,
}
use mathlib.Core.Path.{subst}
use pipop_core.Commands.Transfer.Served.{Served, Served-next, next_chunk_size_narrow}
use pipop_core.Commands.Transfer.Safety.{next_chunk_size-bounds}

-- The action succeeds.
abbrev pub Succeeds : {A : Type 0} → (World → Type 0) → Result PtpIpError A × World → Type 0
Succeeds P = Ensures (λ a w. P w) (λ w. ⊥)

unequal : (a b : ℕ) → not (a == b) ≡ true → a ≡ b → ⊥
unequal a b h e = ground arith

module _ (save_path : PathBuf) (name : Text) (named : save_path.file_name ≡ some name)
    (valid : from_utf8_lossy name ≡ name) (object : Bytes) where
  abbrev temp : PathBuf
  temp = get_temp_path save_path

  -- No call on files fails any more, the temporary file has so many bytes of the object, and the
  -- connection is as `Q` says.
  abbrev pub Holds : (Wire → Type 0) → ℕ → World → Type 0
  Holds Q offset w =
      (w.disk.outcomes ≡ []) × (w.disk.files temp ≡ some (take offset object)) × Q w.wire

  -- They are counted, too.
  abbrev pub Runs : (Wire → Type 0) → ℕ → World → Type 0
  Runs Q offset w = Holds Q offset w × (w.stats.downloaded_bytes ≡ offset)

  save_resume_state-Runs :
      (Q : Wire → Type 0) (offset n : ℕ) (w : World)
      → Runs Q offset w
      → Succeeds (Runs Q offset) (save_resume_state save_path n w)
  unfolding save_resume_state write_file create write_all guarded
  save_resume_state-Runs Q offset n w ((o, t, c), b) =
      rw (o, same_path_refl (get_resume_path save_path))
        ((refl, rw (resume-ne-temp save_path name named valid) t, c), b)

  write_all-Runs :
      (Q : Wire → Type 0) (offset : ℕ) (bs old : Bytes) (w : World)
      → w.disk.outcomes ≡ []
      → w.disk.files temp ≡ some old
      → Q w.wire
      → old ++ bs ≡ take offset object
      → Succeeds (Holds Q offset) (on_disk (write_all temp bs) w)
  unfolding write_all
  write_all-Runs Q offset bs old w o t c e = rw (o, t, same_path_refl temp, e) (refl, refl, c)

  report_at-Succeeds :
      (P : World → Type 0) (o : Option ℕ) (last offset total : ℕ) (w : World)
      → ((reports : List Report) → P (record w { reports = reports }))
      → Succeeds P (report_at o last offset total w)
  report_at-Succeeds P none last offset total w h = h w.reports
  report_at-Succeeds P (some p) last offset total w h = h _

  store_chunk-Runs :
      (Q : Wire → Type 0) (total last offset reached : ℕ) (checkpoints : List ℕ) (bs : Bytes)
      (w : World)
      → Holds Q offset w
      → take offset object ++ bs ≡ take reached object
      → Succeeds (Runs Q reached) (store_chunk save_path temp total checkpoints reached last bs w)
  unfolding store_chunk
  store_chunk-Runs Q total last offset reached checkpoints bs w (o, t, c) e =
      let U : Unit {0} → World → Type 0 = λ u w'. Holds Q reached w' in
      let P : ℕ → World → Type 0 = λ l w'. Runs Q reached w' in
      let N : World → Type 0 = λ w'. ⊥ in
      resume-Ensures U P N (on_disk (write_all temp bs) w) _
        (write_all-Runs Q reached bs (take offset object) w o t c e)
        λ u w₁ h₁.
          resume-Ensures P P N _ _
            (report_at-Succeeds (Runs Q reached) (next_checkpoint checkpoints last reached) last
              reached total _ λ reports. (h₁, refl))
            λ l w₂ g₂.
              resume-Ensures (λ u' w'. Runs Q reached w') P N
                (save_resume_state save_path reached w₂) _
                (save_resume_state-Runs Q reached reached w₂ g₂) λ u' w₃ g₃. g₃

  counted-Holds :
      (Q R : Wire → Type 0) (offset : ℕ) (bs : Bytes)
      (p : Result PtpIpError Bytes × DownloadStats × Wire) (w : World)
      → p.0 ≡ ok bs
      → R p.2
      → Holds Q offset w
      → Ensures
          (λ d w'. (d ≡ bs) × Holds R offset w')
          (λ w'. ⊥)
          (p.0, record w { stats = p.1; wire = p.2 })
  counted-Holds Q R offset bs (r, s, v) w e c (o, t, c') = rw e (refl, (o, t, c))

  one_chunk-Runs :
      (Q R : Wire → Type 0) (fetch : Fetch) (total last size offset : ℕ) (checkpoints : List ℕ)
      (w : World)
      → (fetch offset (size % 2 ^ 32) w.stats w.wire).0 ≡ ok (take size (drop offset object))
      → R (fetch offset (size % 2 ^ 32) w.stats w.wire).2
      → offset + size ≤ length object
      → Holds Q offset w
      → Succeeds
          (Runs R (offset + size))
          (one_chunk fetch save_path temp total checkpoints size offset last w)
  unfolding one_chunk
  one_chunk-Runs Q R fetch total last size offset checkpoints w e c l h =
      let bs = take size (drop offset object) in
      let n : length bs ≡ size =
        length-take size (drop offset object) (omega (arith, length-drop offset object)) in
      let P : ℕ → World → Type 0 = λ l' w'. Runs R (offset + size) w' in
      resume-Ensures (λ d w'. (d ≡ bs) × Holds R offset w') P (λ w'. ⊥)
        (counted (fetch offset (size % 2 ^ 32)) w) _
        (counted-Holds Q R offset bs (fetch offset (size % 2 ^ 32) w.stats w.wire) w e c h)
        λ d w₁ (q, h₁).
          if-Ensures P (λ w'. ⊥) (not (length d == size)) _ _ w₁
            (λ g. absurd (unequal (length d) size g (ap length q ∙ n)))
            (λ g.
              store_chunk-Runs R total last offset (offset + size) checkpoints d w₁ h₁
                (ap (λ (t : Bytes). take offset object ++ t) q ∙ take-add offset size object))

  pub transfer_loop-Runs :
      (fetch : Fetch) (checkpoints : List ℕ) (config : ChunkDownloadConfig) (fuel offset last : ℕ)
      (w : World)
      → 0 < config.chunk_size
      → config.chunk_size < 2 ^ 32
      → config.min_chunk_size < 2 ^ 32
      → length object - offset < fuel
      → offset ≤ length object
      → Runs (Served object fetch config offset) offset w
      → Succeeds
          (Runs (λ v. Unit {0}) (length object))
          (transfer_loop fetch save_path temp (length object) checkpoints config fuel offset last w)
  unfolding transfer_loop
  transfer_loop-Runs fetch checkpoints config zero offset last w c u v l k h = absurd (omega arith)
  transfer_loop-Runs fetch checkpoints config (suc fuel) offset last w c u v l k h =
      let size = next_chunk_size config (length object - offset) in
      let P : Unit {0} → World → Type 0 = λ x w'. Runs (λ y. Unit {0}) (length object) w' in
      if-Ensures P (λ w'. ⊥) (ltb offset (length object)) _ (pure tt) w
        (λ e.
          let b = next_chunk_size-bounds config (length object - offset) c (ground arith) in
          let n = next_chunk_size_narrow config (length object - offset) u v in
          let m : size ≡ size % 2 ^ 32 = omega (arith, n) in
          let (a, r) = Served-next object fetch config h.0.2 (ground arith) in
          resume-Ensures
            (λ l' w'. Runs (Served object fetch config (offset + size)) (offset + size) w') P
            (λ w'. ⊥)
            (one_chunk fetch save_path temp (length object) checkpoints size offset last w) _
            (one_chunk-Runs (Served object fetch config offset)
              (Served object fetch config (offset + size)) fetch (length object) last size offset
              checkpoints w
              (subst (λ k. (fetch offset k w.stats w.wire).0 ≡ ok (take size (drop offset object)))
                m (a w.stats))
              (subst
                (λ k. Served object fetch config (offset + size) (fetch offset k w.stats w.wire).2)
                m (r w.stats))
              (ground (arith, b)) h.0)
            λ l' w' h'.
              transfer_loop-Runs fetch checkpoints config fuel (offset + size) l' w' c u v
                (ground (arith, b)) (ground (arith, b)) h')
        (λ e.
          let d : offset ≡ length object = ground arith in
          ((h.0.0, h.0.1 ∙ ap (λ k. some (take k object)) d, tt), h.1 ∙ d))
