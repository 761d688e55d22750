-- ===== src/Commands/Resume.antt =====
-- src/commands.rs: the files that let a download go on where it stopped.
pub mod Parts
pub mod Started
pub mod Checks
pub mod Progress
use pipop_core.Base.{
  ℕ, ◌+◌, ◌&&◌, Bool, true, false, Option, none, some, List, [], ◌∷◌, ◌++◌, Bytes, Text, Result, ok,
  err, length, ltb, leb, not, ◌==◌, if◌then◌else◌, text, decimal,
}
use pipop_core.Error.{PtpIpError, invalid_resume_data}
use pipop_core.Utf8.{from_utf8_lossy}
use pipop_core.Str.{trim, parse_usize}
use pipop_core.Files.{
  PathBuf, set_file_name, exists, file_len, read_to_string, remove_file, rename, create, open_file,
  write_file,
}
use pipop_core.Commands.World.{World, Action, ◌>>=◌, ◌>>◌, pure, fail, on_disk}

-- `file_name().map(...).unwrap_or_else(...)`
abbrev name_or : Option Text → (Text → Text) → Text → Text
name_or none f other_name = other_name
name_or (some n) f other_name = f (from_utf8_lossy n)

unfoldable pub get_temp_path : PathBuf → PathBuf
unfolding text
get_temp_path path =
    set_file_name
      (name_or path.file_name (λ n. text "." ++ (n ++ text ".download")) (text ".download.tmp"))
      path

unfoldable pub get_resume_path : PathBuf → PathBuf
unfolding text
get_resume_path path =
    set_file_name (name_or path.file_name (λ n. text "." ++ (n ++ text ".resume")) (text ".resume"))
      path

-- `fs::write(path, offset.to_string())`
unfoldable pub save_resume_state : PathBuf → ℕ → Action (Unit {0})
save_resume_state save_path offset =
    on_disk (write_file (get_resume_path save_path) (decimal offset))

-- `resume_data.trim().parse()`
abbrev pub offset_of : Option ℕ → Action ℕ
offset_of none = fail invalid_resume_data
offset_of (some n) = pure n

-- The record does not fit the temporary file: both are removed.
unfoldable pub restart : PathBuf → Action (ℕ × PathBuf)
restart save_path = do
  on_disk (remove_file (get_resume_path save_path))
  on_disk (remove_file (get_temp_path save_path))
  file ← on_disk (create (get_temp_path save_path))
  pure (0, file)

-- The temporary file is complete: it becomes the file.
unfoldable pub promote : PathBuf → ℕ → Action (ℕ × PathBuf)
promote save_path total_size = do
  on_disk (rename (get_temp_path save_path) save_path)
  on_disk (remove_file (get_resume_path save_path))
  file ← on_disk (open_file save_path)
  pure (total_size, file)

unfoldable pub go_on : PathBuf → ℕ → Action (ℕ × PathBuf)
go_on save_path current_offset = do
  file ← on_disk (open_file (get_temp_path save_path))
  pure (current_offset, file)

unfoldable pub from_resume_point : PathBuf → ℕ → Action (ℕ × PathBuf)
from_resume_point save_path total_size = do
  resume_data ← on_disk (read_to_string (get_resume_path save_path))
  current_offset ← offset_of (parse_usize (trim resume_data))
  temp_len ← on_disk (file_len (get_temp_path save_path))
  if not (temp_len == current_offset)
      then restart save_path
      else if leb total_size current_offset
      then promote save_path total_size
      else go_on save_path current_offset

unfoldable pub from_beginning : PathBuf → Action (ℕ × PathBuf)
from_beginning save_path = do
  there ← on_disk (exists (get_temp_path save_path))
  (if there then on_disk (remove_file (get_temp_path save_path)) else pure tt)
  file ← on_disk (create (get_temp_path save_path))
  pure (0, file)

-- The part behind the test of the target file.
unfoldable pub from_parts : PathBuf → ℕ → Action (ℕ × PathBuf)
from_parts save_path total_size = do
  recorded ← on_disk (exists (get_resume_path save_path))
  both ← (if recorded then on_disk (exists (get_temp_path save_path)) else pure false)
  if both then from_resume_point save_path total_size else from_beginning save_path

-- The target file is complete where it has the size of the object.
unfoldable pub from_target : PathBuf → ℕ → Action (ℕ × PathBuf)
from_target save_path total_size = do
  len ← on_disk (file_len save_path)
  if len == total_size
      then (on_disk (open_file save_path) >>= λ file. pure (total_size, file))
      else from_parts save_path total_size

unfoldable pub check_resume_state : PathBuf → ℕ → Action (ℕ × PathBuf)
check_resume_state save_path total_size = do
  there ← on_disk (exists save_path)
  if there then from_target save_path total_size else from_parts save_path total_size
