-- ===== src/Fs/Update.antt =====
-- fs/fs.c: the operations of the server on paths.
use buaa_os_25spring.Prelude.{ℕ, ◌*◌, List}
use buaa_os_25spring.Exec.{
  Run, ok, fail, panic, pure, throw, ◌>>=◌, ◌>>◌, e_not_found, e_file_exists,
}
use buaa_os_25spring.Fs.{Fs, FsCmd}
use buaa_os_25spring.Fs.File.{file_truncate, file_flush, flush_dir}
use buaa_os_25spring.Fs.Dir.{dir_alloc_file, store_text, store_byte}
use buaa_os_25spring.Fs.Path.{Walked, found, absent, walk_path}

abbrev pub opened : Walked → FsCmd ℕ
opened (found dir f) = pure f
opened (absent dir name) = throw e_not_found

unfoldable pub file_open : List ℕ → FsCmd ℕ
file_open path = do w ← walk_path path; opened w

-- Whatever error `dir_alloc_file` has, the result is that of `walk_path`, -E_NOT_FOUND.
abbrev pub name_new : List ℕ → Run Fs ℕ → Run Fs ℕ
name_new name (ok f s) = (do store_text name (4 * f); pure f) s
name_new name (fail e s) = fail e_not_found s
name_new name panic = panic

abbrev pub created : Walked → FsCmd ℕ
created (found dir f) s = fail e_file_exists s
created (absent dir name) s = name_new name (dir_alloc_file dir s)

unfoldable pub file_create : List ℕ → FsCmd ℕ
file_create path = do w ← walk_path path; created w

unfoldable pub file_remove : List ℕ → FsCmd (Unit {0})
file_remove path = do
  w ← walk_path path
  f ← opened w
  file_truncate f 0
  store_byte (4 * f) 0
  file_flush f
  flush_dir f
