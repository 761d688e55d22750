-- ===== src/Commands/Resume/Progress.antt =====
-- src/commands.rs: the check of the files ends, whatever fails.
use pipop_core.Base.{
  ℕ, Bool, false, Option, none, some, Bytes, leb, not, ◌==◌, if◌then◌else◌, decimal,
}
use pipop_core.Str.{trim, parse_usize}
use pipop_core.Files.{
  PathBuf, Disk, Fs, Outcome, fine, failing, first_outcome, spent, exists, file_len, read_to_string,
  remove_file, rename, create, open_file, write_by, write_all,
}
use pipop_core.Files.Rules.{
  Does, exists-Does, file_len-Does, read_to_string-Does, remove_file-Does, rename-Does, create-Does,
  open_file-Does, write_file-Does,
}
use pipop_core.Commands.World.{World, Action, on_disk, pure, ◌>>=◌}
use pipop_core.Commands.World.Outcomes.{Ensures, resume-Ensures, if-Ensures, on_disk-Ensures}
use pipop_core.Commands.Resume.{
  get_temp_path, get_resume_path, save_resume_state, offset_of, restart, promote, go_on,
  from_resume_point, from_beginning, from_parts, from_target, check_resume_state,
}

-- The action ends, with a value or an error, from every state.
pub record Halts {A : Type 0} (m : Action A) : Type 0 where
  pub at : (w : World) → Ensures (λ a w'. Unit {0}) (λ w'. Unit {0}) (m w)

module _ {A B : Type 0} where
  pub Halts-bind :
      (m : Action A) (f : A → Action B) → Halts m → ((a : A) → Halts (f a)) → Halts (m >>= f)
  Halts-bind m f h k = record {
    at = λ w.
        resume-Ensures (λ a w'. Unit {0}) (λ a w'. Unit {0}) (λ w'. Unit {0}) (m w) f (h.at w)
          λ a w' u. (k a).at w';
  }

module _ {A : Type 0} where
  pub Halts-if : (b : Bool) (m k : Action A) → Halts m → Halts k → Halts (if b then m else k)
  Halts-if b m k g h = record {
    at = λ w. if-Ensures (λ a w'. Unit {0}) (λ w'. Unit {0}) b m k w (λ e. g.at w) (λ e. h.at w);
  }

  pub Halts-pure : (a : A) → Halts (pure a)
  Halts-pure a = record { at = λ w. tt }

  -- A call on files that ends.
  pub Halts-on_disk :
      (m : Fs A) → ((d : Disk) → Does (λ a f. Unit {0}) (λ f. Unit {0}) (m d)) → Halts (on_disk m)
  Halts-on_disk m h = record {
    at = λ w. on_disk-Ensures (λ a f. Unit {0}) (λ f. Unit {0}) m w (h w.disk);
  }

Halts-exists : (path : PathBuf) → Halts (on_disk (exists path))
Halts-exists path = Halts-on_disk _ λ d. exists-Does _ _ path d λ b. tt

Halts-file_len : (path : PathBuf) → Halts (on_disk (file_len path))
Halts-file_len path = Halts-on_disk _ λ d. file_len-Does _ _ path d tt λ bs e. tt

Halts-read_to_string : (path : PathBuf) → Halts (on_disk (read_to_string path))
Halts-read_to_string path = Halts-on_disk _ λ d. read_to_string-Does _ _ path d tt λ bs t e u. tt

pub Halts-remove_file : (path : PathBuf) → Halts (on_disk (remove_file path))
Halts-remove_file path = Halts-on_disk _ λ d. remove_file-Does _ _ path d tt λ bs e. tt

pub Halts-rename : (from to : PathBuf) → Halts (on_disk (rename from to))
Halts-rename from to = Halts-on_disk _ λ d. rename-Does _ _ from to d tt λ bs e. tt

Halts-create : (path : PathBuf) → Halts (on_disk (create path))
Halts-create path = Halts-on_disk _ λ d. create-Does _ _ path d tt tt

Halts-open_file : (path : PathBuf) → Halts (on_disk (open_file path))
Halts-open_file path = Halts-on_disk _ λ d. open_file-Does _ _ path d tt λ bs e. tt

write_by-halts :
    (o : Outcome) (file : PathBuf) (bs : Bytes) (d : Disk)
    → Does (λ u f. Unit {0}) (λ f. Unit {0}) (write_by o file bs d)
write_by-halts fine file bs d = tt
write_by-halts (failing n e) file bs d = tt

pub Halts-write_all : (file : PathBuf) (bs : Bytes) → Halts (on_disk (write_all file bs))
unfolding write_all
Halts-write_all file bs =
    Halts-on_disk (write_all file bs)
      λ d. write_by-halts (first_outcome d.outcomes) file bs (spent d)

pub Halts-save_resume_state : (save_path : PathBuf) (n : ℕ) → Halts (save_resume_state save_path n)
unfolding save_resume_state
Halts-save_resume_state save_path n =
    Halts-on_disk _
      λ d. write_file-Does _ _ (get_resume_path save_path) (decimal n) d tt λ f e. (tt, tt)

Halts-offset_of : (o : Option ℕ) → Halts (offset_of o)
Halts-offset_of none = record { at = λ w. tt }
Halts-offset_of (some n) = record { at = λ w. tt }

module _ (save_path : PathBuf) where
  Halts-from_beginning : Halts (from_beginning save_path)
  unfolding from_beginning
  Halts-from_beginning = Halts-bind _ _ (Halts-exists (get_temp_path save_path)) λ there.
      Halts-bind _ _
        (Halts-if there _ _ (Halts-remove_file (get_temp_path save_path)) (Halts-pure tt))
        λ u. Halts-bind _ _ (Halts-create (get_temp_path save_path)) λ file. Halts-pure (0, file)

  Halts-restart : Halts (restart save_path)
  unfolding restart
  Halts-restart = Halts-bind _ _ (Halts-remove_file (get_resume_path save_path)) λ u.
      Halts-bind _ _ (Halts-remove_file (get_temp_path save_path))
        λ u'. Halts-bind _ _ (Halts-create (get_temp_path save_path)) λ file. Halts-pure _

  Halts-promote : (total : ℕ) → Halts (promote save_path total)
  unfolding promote
  Halts-promote total = Halts-bind _ _ (Halts-rename (get_temp_path save_path) save_path) λ u.
      Halts-bind _ _ (Halts-remove_file (get_resume_path save_path))
        λ u'. Halts-bind _ _ (Halts-open_file save_path) λ file. Halts-pure _

  Halts-go_on : (offset : ℕ) → Halts (go_on save_path offset)
  unfolding go_on
  Halts-go_on offset =
      Halts-bind _ _ (Halts-open_file (get_temp_path save_path)) λ file. Halts-pure _

  Halts-from_resume_point : (total : ℕ) → Halts (from_resume_point save_path total)
  unfolding from_resume_point
  Halts-from_resume_point total =
      Halts-bind _ _ (Halts-read_to_string (get_resume_path save_path)) λ t.
        Halts-bind _ _ (Halts-offset_of (parse_usize (trim t))) λ n.
          Halts-bind _ _ (Halts-file_len (get_temp_path save_path)) λ len.
            Halts-if (not (len == n)) _ _ Halts-restart
              (Halts-if (leb total n) _ _ (Halts-promote total) (Halts-go_on n))

  Halts-from_parts : (total : ℕ) → Halts (from_parts save_path total)
  unfolding from_parts
  Halts-from_parts total = Halts-bind _ _ (Halts-exists (get_resume_path save_path)) λ r.
      Halts-bind _ _ (Halts-if r _ _ (Halts-exists (get_temp_path save_path)) (Halts-pure false))
        λ both. Halts-if both _ _ (Halts-from_resume_point total) Halts-from_beginning

  Halts-from_target : (total : ℕ) → Halts (from_target save_path total)
  unfolding from_target
  Halts-from_target total = Halts-bind _ _ (Halts-file_len save_path) λ len.
      Halts-if (len == total) _ _ (Halts-bind _ _ (Halts-open_file save_path) λ file. Halts-pure _)
        (Halts-from_parts total)

  pub Halts-check_resume_state : (total : ℕ) → Halts (check_resume_state save_path total)
  unfolding check_resume_state
  Halts-check_resume_state total =
      Halts-bind _ _ (Halts-exists save_path)
        λ there. Halts-if there _ _ (Halts-from_target total) (Halts-from_parts total)
