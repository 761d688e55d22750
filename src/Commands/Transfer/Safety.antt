-- ===== src/Commands/Transfer/Safety.antt =====
-- src/commands.rs: whatever fails in a download, the files stay sound.
use pipop_core.Base.{
  refl, ℕ, zero, suc, ◌+◌, ◌-◌, ◌%◌, ◌^◌, ◌≤◌, ◌<◌, ◌≡◌, ap, ◌∙◌, Option, none, some, List, ◌++◌,
  Bytes, Text, Result, ok, err, stuck, length, take, drop, take-take, take-add, take-length-take,
  min, false, not, ◌==◌, ltb, arith, decimal,
}
use pipop_core.Error.{PtpIpError}
use pipop_core.Types.{DownloadStats}
use pipop_core.Net.{Wire}
use pipop_core.Utf8.{from_utf8_lossy}
use pipop_core.Files.{PathBuf, Disk, write_all, write_file}
use pipop_core.Files.Store.{same_path_refl}
use pipop_core.Files.Rules.{Files, Elsewhere, Does, write_all-Does, write_file-Does}
use pipop_core.Commands.World.{World, Report, on_disk, pure, counted}
use pipop_core.Commands.World.Outcomes.{Ensures, resume-Ensures, if-Ensures, on_disk-Ensures_wire}
use pipop_core.Commands.Resume.{get_temp_path, get_resume_path, save_resume_state}
use pipop_core.Commands.Resume.Parts.{
  Incomplete, IsSound-prefix, IsReady, IsReady-temp, temp-ne-target, resume-ne-target,
  resume-ne-temp,
}
use pipop_core.Commands.Resume.Started.{Whole}
use pipop_core.Commands.Transfer.{
  ChunkDownloadConfig, Fetch, next_chunk_size, report_at, next_checkpoint, store_chunk, one_chunk,
  transfer_loop,
}

-- Bytes that were received for an offset are the object's from there on. A request ends.
abbrev pub IsFaithful : Bytes → ℕ → Result PtpIpError Bytes → Type 0
IsFaithful object offset (ok bs) = bs ≡ take (length bs) (drop offset object)
IsFaithful object offset (err e) = Unit {0}
IsFaithful object offset stuck = ⊥

module _ (object : Bytes) (fetch : Fetch) (config : ChunkDownloadConfig) where
  -- The length of the chunk that is asked for at an offset.
  abbrev pub size_at : ℕ → ℕ
  size_at offset = next_chunk_size config (length object - offset)

  -- From this offset and connection on, each request that a download makes ends, and the data that it
  -- returns are the object's. The next request goes out on the connection that the last one leaves,
  -- where that one returned the whole chunk.
  pub data IsHonest : ℕ → Wire → Type 0 where
    nothing_asked : {w : Wire} → IsHonest (length object) w
    chunk_asked :
        {offset : ℕ} {w : Wire}
        → ((stats : DownloadStats)
            → IsFaithful object offset (fetch offset (size_at offset % 2 ^ 32) stats w).0)
        → ((stats : DownloadStats) (bs : Bytes)
            → (fetch offset (size_at offset % 2 ^ 32) stats w).0 ≡ ok bs
            → length bs ≡ size_at offset
            → IsHonest (offset + size_at offset) (fetch offset (size_at offset % 2 ^ 32) stats w).2)
        → IsHonest offset w

  IsHonest-next :
      {offset : ℕ} {w : Wire}
      → IsHonest offset w
      → offset < length object
      → ((stats : DownloadStats)
          → IsFaithful object offset (fetch offset (size_at offset % 2 ^ 32) stats w).0)
        × ((stats : DownloadStats) (bs : Bytes)
            → (fetch offset (size_at offset % 2 ^ 32) stats w).0 ≡ ok bs
            → length bs ≡ size_at offset
            → IsHonest (offset + size_at offset) (fetch offset (size_at offset % 2 ^ 32) stats w).2)
  IsHonest-next nothing_asked h = absurd (omega arith)
  IsHonest-next (chunk_asked a r) h = (a, r)

-- With a chunk size above 0, and something left of the object, the next chunk has a byte at least,
-- and no more than what is left.
pub next_chunk_size-bounds :
    (config : ChunkDownloadConfig) (remaining : ℕ)
    → 0 < config.chunk_size
    → 0 < remaining
    → (0 < next_chunk_size config remaining) × (next_chunk_size config remaining ≤ remaining)
unfolding next_chunk_size
next_chunk_size-bounds config remaining h k = (ground arith, ground arith)

same_length : (a b : ℕ) → not (a == b) ≡ false → a ≡ b
same_length a b h = ground arith

-- What an action does to files alone.
counted-Ensures :
    (object : Bytes) (offset size : ℕ) (P : Files → Type 0) (Q : Files → Type 0) (R : Wire → Type 0)
    (p : Result PtpIpError Bytes × DownloadStats × Wire) (w : World)
    → IsFaithful object offset p.0
    → ((bs : Bytes) → p.0 ≡ ok bs → length bs ≡ size → R p.2)
    → P w.disk.files
    → Q w.disk.files
    → Ensures
        (λ bs w'.
          P w'.disk.files
          × (bs ≡ take (length bs) (drop offset object))
          × (length bs ≡ size → R w'.wire))
        (λ w'. Q w'.disk.files)
        (p.0, record w { stats = p.1; wire = p.2 })
counted-Ensures object offset size P Q R (ok bs, s, v) w h r p q = (p, h, r bs refl)
counted-Ensures object offset size P Q R (err e, s, v) w h r p q = q
counted-Ensures object offset size P Q R (stuck, s, v) w h r p q = h

report_at-Ensures :
    (P : World → Type 0) (Q : World → Type 0) (o : Option ℕ) (last offset total : ℕ) (w : World)
    → ((reports : List Report) → P (record w { reports = reports }))
    → Ensures (λ l w'. P w') Q (report_at o last offset total w)
report_at-Ensures P Q none last offset total w h = h w.reports
report_at-Ensures P Q (some p) last offset total w h = h _

module _ (save_path : PathBuf) (name : Text) (named : save_path.file_name ≡ some name)
    (valid : from_utf8_lossy name ≡ name) (object : Bytes) where
  abbrev pub temp : PathBuf
  temp = get_temp_path save_path

  abbrev pub Ready : Files → Type 0
  Ready = IsReady save_path name named valid object

  abbrev pub Done : Files → Type 0
  Done = Whole save_path name named valid object

  -- The temporary file has the object's first bytes, and the target is not complete.
  abbrev pub Going : ℕ → Files → Type 0
  Going offset f = (f temp ≡ some (take offset object)) × Incomplete object (f save_path)

  pub Going-Ready : (offset : ℕ) (f : Files) → Going offset f → Ready f
  Going-Ready offset f h =
      rw h.0 (IsSound-prefix object (take offset object) (take-length-take offset object) h.1)

  Going-Elsewhere :
      (offset : ℕ) (f g : Files)
      → Going offset g
      → Elsewhere (get_resume_path save_path) f g
      → Going offset f
  Going-Elsewhere offset f g h e = (
    e temp (resume-ne-temp save_path name named valid) ∙ h.0,
    rw (e save_path (resume-ne-target save_path name named valid)) h.1,
  )

  save_resume_state-Going :
      (R : Wire → Type 0) (offset n : ℕ) (w : World)
      → R w.wire
      → Going offset w.disk.files
      → Ensures
          (λ u w'. Going offset w'.disk.files × R w'.wire)
          (λ w'. Ready w'.disk.files)
          (save_resume_state save_path n w)
  unfolding save_resume_state
  save_resume_state-Going R offset n w r h =
      on_disk-Ensures_wire (λ u f. Going offset f) Ready R
        (write_file (get_resume_path save_path) (decimal n)) w r
        (write_file-Does (λ u f. Going offset f) Ready (get_resume_path save_path) (decimal n)
          w.disk (Going-Ready offset w.disk.files h)
          λ f e. let g = Going-Elsewhere offset f w.disk.files h e in (g, Going-Ready offset f g))

  -- A front of the received bytes behind the temporary file.
  added :
      (offset k : ℕ) (bs : Bytes)
      → bs ≡ take (length bs) (drop offset object)
      → take offset object ++ take k bs ≡ take (offset + min k (length bs)) object
  added offset k bs h =
      ap (λ (t : Bytes). take offset object ++ take k t) h
      ∙ ap (λ (t : Bytes). take offset object ++ t) (take-take k (length bs) (drop offset object))
      ∙ take-add offset (min k (length bs)) object

  write_all-Going :
      (offset : ℕ) (bs : Bytes) (d : Disk)
      → Going offset d.files
      → bs ≡ take (length bs) (drop offset object)
      → Does (λ u f. Going (offset + length bs) f) Ready (write_all temp bs d)
  write_all-Going offset bs d h e =
      write_all-Does _ _ temp bs (take offset object) d h.0
        (
          rw (same_path_refl temp) (
              ap some (
                ap (λ (t : Bytes). take offset object ++ t) e
                ∙ take-add offset (length bs) object)),
          rw (temp-ne-target save_path name named valid) h.1,
        )
        λ k. IsReady-temp save_path name named valid object _ d (
          rw (added offset k bs e)
            (IsSound-prefix object _ (take-length-take (offset + min k (length bs)) object) h.1))

  store_chunk-Going :
      (R : Wire → Type 0) (total last offset : ℕ) (checkpoints : List ℕ) (bs : Bytes) (w : World)
      → R w.wire
      → Going offset w.disk.files
      → bs ≡ take (length bs) (drop offset object)
      → Ensures
          (λ l w'. Going (offset + length bs) w'.disk.files × R w'.wire)
          (λ w'. Ready w'.disk.files)
          (store_chunk save_path temp total checkpoints (offset + length bs) last bs w)
  unfolding store_chunk
  store_chunk-Going R total last offset checkpoints bs w r h e =
      let reached = offset + length bs in
      let On : World → Type 0 = λ w'. Going reached w'.disk.files × R w'.wire in
      let P : ℕ → World → Type 0 = λ l w'. On w' in
      let U : Unit {0} → World → Type 0 = λ u w'. On w' in
      let Q : World → Type 0 = λ w'. Ready w'.disk.files in
      resume-Ensures U P Q (on_disk (write_all temp bs) w) _
        (on_disk-Ensures_wire (λ u f. Going reached f) Ready R (write_all temp bs) w r
          (write_all-Going offset bs w.disk h e))
        λ u w₁ g₁.
          resume-Ensures P P Q _ _
            (report_at-Ensures On Q (next_checkpoint checkpoints last reached) last reached total _
              λ reports. g₁)
            λ l w₂ g₂.
              resume-Ensures U P Q (save_resume_state save_path reached w₂) _
                (save_resume_state-Going R reached reached w₂ g₂.1 g₂.0) λ u' w₃ g₃. g₃

  one_chunk-Going :
      (R : Wire → Type 0) (fetch : Fetch) (total last size offset : ℕ) (checkpoints : List ℕ)
      (w : World)
      → IsFaithful object offset (fetch offset (size % 2 ^ 32) w.stats w.wire).0
      → ((bs : Bytes)
          → (fetch offset (size % 2 ^ 32) w.stats w.wire).0 ≡ ok bs
          → length bs ≡ size
          → R (fetch offset (size % 2 ^ 32) w.stats w.wire).2)
      → Going offset w.disk.files
      → Ensures
          (λ l w'. Going (offset + size) w'.disk.files × R w'.wire)
          (λ w'. Ready w'.disk.files)
          (one_chunk fetch save_path temp total checkpoints size offset last w)
  unfolding one_chunk
  one_chunk-Going R fetch total last size offset checkpoints w faithful r h =
      let P : ℕ → World → Type 0 = λ l w'. Going (offset + size) w'.disk.files × R w'.wire in
      let Q : World → Type 0 = λ w'. Ready w'.disk.files in
      resume-Ensures
        (λ bs w'.
          Going offset w'.disk.files
          × (bs ≡ take (length bs) (drop offset object))
          × (length bs ≡ size → R w'.wire))
        P Q (counted (fetch offset (size % 2 ^ 32)) w) _
        (counted-Ensures object offset size (Going offset) Ready R
          (fetch offset (size % 2 ^ 32) w.stats w.wire) w faithful r h
          (Going-Ready offset w.disk.files h))
        λ bs w₁ (g, e, k).
          if-Ensures P Q (not (length bs == size)) _ _ w₁
            (λ d.
              resume-Ensures (λ u w'. Going offset w'.disk.files × Unit {0}) P Q
                (save_resume_state save_path offset w₁) _
                (save_resume_state-Going (λ v. Unit {0}) offset offset w₁ tt g)
                λ u w₂ g₂. Going-Ready offset w₂.disk.files g₂.0)
            (λ d.
              let l = same_length (length bs) size d in
              rw l at (store_chunk-Going R total last offset checkpoints bs w₁ (k l) g e))

  pub transfer_loop-Going :
      (fetch : Fetch) (checkpoints : List ℕ) (config : ChunkDownloadConfig) (fuel offset last : ℕ)
      (w : World)
      → IsHonest object fetch config offset w.wire
      → 0 < config.chunk_size
      → length object - offset < fuel
      → offset ≤ length object
      → Going offset w.disk.files
      → Ensures
          (λ u w'. Going (length object) w'.disk.files)
          (λ w'. Ready w'.disk.files)
          (transfer_loop fetch save_path temp (length object) checkpoints config fuel offset last w)
  unfolding transfer_loop
  transfer_loop-Going fetch checkpoints config zero offset last w honest c h l g =
      absurd (omega arith)
  transfer_loop-Going fetch checkpoints config (suc fuel) offset last w honest c h l g =
      let size = next_chunk_size config (length object - offset) in
      let R : Wire → Type 0 = λ v. IsHonest object fetch config (offset + size) v in
      let P : Unit {0} → World → Type 0 = λ u w'. Going (length object) w'.disk.files in
      let Q : World → Type 0 = λ w'. Ready w'.disk.files in
      if-Ensures P Q (ltb offset (length object)) _ (pure tt) w
        (λ e.
          let b = next_chunk_size-bounds config (length object - offset) c (ground arith) in
          let (a, r) = IsHonest-next object fetch config honest (ground arith) in
          resume-Ensures (λ l' w'. Going (offset + size) w'.disk.files × R w'.wire) P Q
            (one_chunk fetch save_path temp (length object) checkpoints size offset last w) _
            (one_chunk-Going R fetch (length object) last size offset checkpoints w (a w.stats)
              (r w.stats) g)
            λ l' w' g'.
              transfer_loop-Going fetch checkpoints config fuel (offset + size) l' w' g'.1 c
                (ground (arith, b)) (ground (arith, b)) g'.0)
        (λ e. let v : offset ≡ length object = ground arith in rw v at g)
