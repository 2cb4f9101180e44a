-- ===== src/Fs/Path.antt =====
-- fs/fs.c: walk_path, which finds the file that a path names.
pub mod Names
use buaa_os_25spring.Prelude.{
  ℕ, zero, suc, ◌+◌, Bool, true, false, not, ◌&&◌, Option, none, some, List, [], ◌∷◌, leb, ◌==◌,
  if◌then◌else◌, length,
}
use buaa_os_25spring.Exec.{
  Error, Run, ok, fail, panic, pure, throw, halt, get, modify, ◌>>=◌, ◌>>◌, e_not_found, e_bad_path,
}
use buaa_os_25spring.Fs.{Fs, FsCmd, s_root}
use buaa_os_25spring.Fs.File.{f_type}
use buaa_os_25spring.Fs.Dir.{dir_lookup}

-- The byte '/'.
abbrev pub slash : ℕ
slash = 47

unfoldable pub skip_slash : List ℕ → List ℕ
skip_slash [] = []
skip_slash (c ∷ cs) = let rest = skip_slash cs in if c == slash then rest else c ∷ cs

-- The bytes up to the next slash, and those from it on.
unfoldable pub take_name : List ℕ → List ℕ
take_name [] = []
take_name (c ∷ cs) = let rest = take_name cs in if c == slash then [] else c ∷ rest

unfoldable pub after_name : List ℕ → List ℕ
after_name [] = []
after_name (c ∷ cs) = let rest = after_name cs in if c == slash then c ∷ cs else rest

-- What `walk_path` tells its caller: the file with its directory (none for the root), or that the
-- last name is not in the directory. Every other error is the error of the command.
pub data Walked : Type 0 where
  found : Option ℕ → ℕ → Walked
  absent : ℕ → List ℕ → Walked

abbrev pub is_nil : List ℕ → Bool
is_nil [] = true
is_nil _ = false

abbrev pub is_not_found : Error → Bool
is_not_found e_not_found = true
is_not_found _ = false

-- The result of `dir_lookup` for `name` in `dir`, with `rest` of the path left.
abbrev pub after_lookup : ℕ → List ℕ → List ℕ → (ℕ → FsCmd Walked) → Run Fs ℕ → Run Fs Walked
after_lookup dir name rest go (ok f s) = go f s
after_lookup dir name rest go (fail e s) =
    if is_not_found e && is_nil rest then ok (absent dir name) s else fail e s
after_lookup dir name rest go panic = panic

-- A name of the path, looked up in `file`.
abbrev pub enter : List ℕ → List ℕ → ℕ → (ℕ → FsCmd Walked) → FsCmd Walked
enter name rest file go s =
    if leb 128 (length name)
    then fail e_bad_path s
    else if not (s.cache (f_type file) == 1)
    then fail e_not_found s
    else after_lookup file name rest go (dir_lookup file name s)

-- The loop of `walk_path`, on fuel.
unfoldable pub walk_from : ℕ → List ℕ → Option ℕ → ℕ → FsCmd Walked
unfolding skip_slash take_name after_name
walk_from fuel [] dir file = pure (found dir file)
walk_from zero (c ∷ cs) dir file = halt
walk_from (suc fuel) (c ∷ cs) dir file =
    let rest = skip_slash (after_name (c ∷ cs)) in
    enter (take_name (c ∷ cs)) rest file (λ f. walk_from fuel rest (some file) f)

unfoldable pub walk_path : List ℕ → FsCmd Walked
unfolding walk_from skip_slash
walk_path path = walk_from (length path) (skip_slash path) none s_root
