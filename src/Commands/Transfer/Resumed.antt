-- ===== src/Commands/Transfer/Resumed.antt =====
-- src/commands.rs: a first download, and one that goes on where another one stopped.
use pipop_core.Base.{
  ℕ, suc, ◌^◌, ◌≤◌, ◌<◌, ◌≡◌, refl, Option, none, some, [], Bytes, Text, Result, ok, length, take,
  take-all, length-take, false, ◌==◌, ==_ne, ==_refl, gt→leb, arith, decimal,
}
use pipop_core.Error.{PtpIpError}
use pipop_core.Utf8.{from_utf8, from_utf8_lossy}
use pipop_core.Utf8.Laws.{from_utf8_ascii}
use pipop_core.Str.{trim, parse_usize}
use pipop_core.Str.Digits.{parse_usize-decimal, decimal-IsAscii}
use pipop_core.Files.{
  exists, PathBuf, Disk, remove_file, rename, create, open_file, file_len, read_to_string, guarded,
}
use pipop_core.Files.Store.{same_path_refl}
use pipop_core.Files.Rules.{Files, remove_file-Does}
use pipop_core.Commands.World.{World, change_stats, ◌>>=◌, ◌>>◌}
use pipop_core.Commands.World.Outcomes.{Ensures, resume-Ensures}
use pipop_core.Commands.Resume.{
  get_temp_path, get_resume_path, check_resume_state, from_target, from_parts, from_resume_point,
  from_beginning, go_on,
}
use pipop_core.Commands.Resume.Parts.{Incomplete, temp-ne-target, resume-ne-target, resume-ne-temp}
use pipop_core.Commands.Transfer.{
  ChunkDownloadConfig, Fetch, transfer_loop, complete_download, progress_checkpoints, download_from,
}
use pipop_core.Net.{Wire}
use pipop_core.Commands.Transfer.Served.{Served}
use pipop_core.Commands.Transfer.Ends.{ignored-Does}
use pipop_core.Commands.Transfer.Success.{Succeeds, Holds, Runs, transfer_loop-Runs}

module _ (save_path : PathBuf) (name : Text) (named : save_path.file_name ≡ some name)
    (valid : from_utf8_lossy name ≡ name) (object : Bytes) where
  abbrev pub temp : PathBuf
  temp = get_temp_path save_path

  abbrev Kept : Files → Type 0
  Kept f = (f save_path ≡ some object) × (f temp ≡ none)

  -- The object is at the target and counted, and the temporary file is gone.
  abbrev pub Stored : World → Type 0
  Stored w = Kept w.disk.files × (w.stats.downloaded_bytes ≡ length object)

  -- The removal of the resume file, whether it is there or not.
  removed : (d : Disk) → Kept d.files → Kept (remove_file (get_resume_path save_path) d).1.files
  removed d h = ignored-Does Kept (remove_file (get_resume_path save_path) d) (
      remove_file-Does (λ u f. Kept f) Kept (get_resume_path save_path) d h
        λ bs e. (
          rw (resume-ne-target save_path name named valid) h.0,
          rw (resume-ne-temp save_path name named valid) h.1,
        ))

  complete_download-Stored :
      (total : ℕ) (w : World)
      → Runs save_path name named valid object (λ v. Unit {0}) (length object) w
      → Succeeds Stored (complete_download save_path total w)
  unfolding complete_download rename guarded
  complete_download-Stored total w ((o, t, c), b) =
      let front : take (length object) object ≡ object =
        take-all (length object) object (omega arith) in
      rw (o, t, front)
        (
          removed _ (
            rw (temp-ne-target save_path name named valid, same_path_refl save_path) refl,
            rw (same_path_refl temp) refl,
          ),
          b,
        )

  -- The check of the files finds so many bytes of the object.
  abbrev pub Finds : (Wire → Type 0) → ℕ → Result PtpIpError (ℕ × PathBuf) × World → Type 0
  Finds Q offset =
      Ensures
        (λ r w. (r.0 ≡ offset) × (r.1 ≡ temp) × Holds save_path name named valid object Q offset w)
        (λ w. ⊥)

  -- A target that is not complete is passed over.
  pub passed_over :
      (Q : Wire → Type 0) (offset : ℕ) (o : Option Bytes) (w : World)
      → w.disk.outcomes ≡ []
      → w.disk.files save_path ≡ o
      → Q w.wire
      → Incomplete object o
      → ((w' : World)
          → w'.disk.outcomes ≡ []
          → w'.disk.files ≡ w.disk.files
          → Q w'.wire
          → Finds Q offset (from_parts save_path (length object) w'))
      → Finds Q offset (check_resume_state save_path (length object) w)
  unfolding check_resume_state exists from_target file_len guarded
  passed_over Q offset none w o e c i h =
      rw (o, e) (h (record w { disk = record w.disk { outcomes = [] } }) refl refl c)
  passed_over Q offset (some s) w o e c i h =
      let d : (length s == length object) ≡ false = ==_ne (length s) (length object) (i s refl) in
      rw (o, e, e, d) (h (record w { disk = record w.disk { outcomes = [] } }) refl refl c)

  -- Without a resume file the temporary file begins anew.
  pub begins :
      (Q : Wire → Type 0) (t : Option Bytes) (w : World)
      → Q w.wire
      → w.disk.outcomes ≡ []
      → w.disk.files (get_resume_path save_path) ≡ none
      → w.disk.files temp ≡ t
      → Finds Q 0 (from_parts save_path (length object) w)
  unfolding from_parts exists from_beginning remove_file create guarded
  begins Q none w c o r e = rw (o, r, e) (refl, refl, (refl, rw (same_path_refl temp) refl, c))
  begins Q (some t) w c o r e =
      rw (o, r, e, e) (refl, refl, (refl, rw (same_path_refl temp) refl, c))

  -- A resume file that fits the temporary file.
  goes_on :
      (Q : Wire → Type 0) (offset : ℕ) (w : World)
      → Q w.wire
      → offset < length object
      → length object < 2 ^ 64
      → w.disk.outcomes ≡ []
      → w.disk.files (get_resume_path save_path) ≡ some (decimal offset)
      → w.disk.files temp ≡ some (take offset object)
      → Finds Q offset (from_parts save_path (length object) w)
  unfolding from_parts exists from_resume_point read_to_string go_on file_len open_file guarded
  goes_on Q offset w c l u o r e =
      let n : length (take offset object) ≡ offset = length-take offset object (omega arith) in
      let p : parse_usize (trim (decimal offset)) ≡ some offset =
        parse_usize-decimal offset (omega arith) in
      let v : from_utf8 (decimal offset) ≡ ok (decimal offset) =
        from_utf8_ascii (decimal offset) (decimal-IsAscii offset) in
      rw (o, r, e, r, v, p, e, n, ==_refl offset, gt→leb (length object) offset l, e)
        (refl, refl, (refl, e, c))

  module _ (checkpoint : ℕ → ℕ → ℕ → ℕ) (fetch : Fetch) (config : ChunkDownloadConfig) (w : World)
      (narrow : length object < 2 ^ 64) (c : 0 < config.chunk_size) (u : config.chunk_size < 2 ^ 32)
      (v : config.min_chunk_size < 2 ^ 32) (o : w.disk.outcomes ≡ []) where
    -- What follows the check of the files.
    from_found :
        (offset total : ℕ)
        → offset ≤ length object
        → total ≡ length object
        → Finds
            (Served object fetch config offset)
            offset
            (check_resume_state save_path (length object) w)
        → Succeeds Stored (
            (check_resume_state save_path total >>= λ (current_offset, file).
            change_stats (λ stats. record stats { downloaded_bytes = current_offset })
            >> transfer_loop fetch save_path file total
                (progress_checkpoints checkpoint config.progress_interval total)
                config
                (suc total)
                current_offset
                0
            >> complete_download save_path total)
              w)
    from_found offset total l e f =
        let P : ℕ × PathBuf → World → Type 0 = λ r w'.
          (r.0 ≡ offset)
          × (r.1 ≡ temp)
          × Holds save_path name named valid object (Served object fetch config offset) offset w' in
        rw e (
          resume-Ensures P (λ x w'. Stored w') (λ w'. ⊥)
            (check_resume_state save_path (length object) w) _ f
            λ r w₁ (i, t, h).
              resume-Ensures
                (λ x w'. Runs save_path name named valid object (λ y. Unit {0}) (length object) w')
                (λ x w'. Stored w') (λ w'. ⊥) _ _
                (rw (i, t)
                  (transfer_loop-Runs save_path name named valid object fetch
                    (progress_checkpoints checkpoint config.progress_interval (length object))
                    config (suc (length object)) offset 0
                    (record w₁ { stats = record w₁.stats { downloaded_bytes = offset } }) c u v
                    (omega arith) l (h, refl)))
                λ x w₂ h₂. complete_download-Stored (length object) w₂ h₂)

    -- A first download succeeds, with the object at the target, no temporary file and each byte
    -- counted, if the target is not complete, there is no resume file, no call on the files fails,
    -- each request that it makes returns what it asks for, the chunk size is above 0, it and the minimal one fit
    -- in 32 bits, the object is shorter than 2^64 bytes, the statistics have its size and the
    -- target's name is valid UTF-8.
    pub download_from_fresh :
        w.stats.total_bytes ≡ length object
        → Incomplete object (w.disk.files save_path)
        → w.disk.files (get_resume_path save_path) ≡ none
        → Served object fetch config 0 w.wire
        → Succeeds Stored (download_from checkpoint fetch save_path config w)
    unfolding download_from
    download_from_fresh e i r d = from_found 0 w.stats.total_bytes (omega arith) e (
        passed_over (Served object fetch config 0) 0 (w.disk.files save_path) w o refl d i
          λ w' o' f d'.
            begins (Served object fetch config 0) (w'.disk.files temp) w' d' o' (rw f r) refl)

    -- Where the temporary file is a front of the object that lacks a byte at least, and the resume
    -- file has its length in decimal, a download goes on from there and succeeds: the object is at
    -- the target, there is no temporary file, and each byte is counted. The target is not complete,
    -- no call on the files fails, each request that the download makes returns what it asks for,
    -- the chunk size is above 0, it and the minimal one fit in 32 bits, the object is shorter than
    -- 2^64 bytes, the statistics have its size and the target's name is valid UTF-8.
    pub download_from_resumed :
        (offset : ℕ)
        → offset < length object
        → w.stats.total_bytes ≡ length object
        → Incomplete object (w.disk.files save_path)
        → w.disk.files (get_resume_path save_path) ≡ some (decimal offset)
        → w.disk.files temp ≡ some (take offset object)
        → Served object fetch config offset w.wire
        → Succeeds Stored (download_from checkpoint fetch save_path config w)
    unfolding download_from
    download_from_resumed offset l e i r t d =
        from_found offset w.stats.total_bytes (omega arith) e (
          passed_over (Served object fetch config offset) offset (w.disk.files save_path) w o refl d
            i
            λ w' o' f d'.
              goes_on (Served object fetch config offset) offset w' d' l narrow o' (rw f r)
                (rw f t))
