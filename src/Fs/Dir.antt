-- ===== src/Fs/Dir.antt =====
-- fs/fs.c: the entries of a directory.
use buaa_os_25spring.Prelude.{
  ℕ, zero, suc, ◌+◌, ◌*◌, ◌/◌, ◌%◌, ◌^◌, Bool, false, ◌&&◌, Option, none, some, List, [], ◌∷◌, ltb,
  leb, ◌==◌, if◌then◌else◌,
}
use buaa_os_25spring.Exec.{Run, ok, fail, panic, pure, throw, get, ◌>>=◌, ◌>>◌, e_not_found}
use buaa_os_25spring.Str.Text.{compare_text, is_equal}
use buaa_os_25spring.Fs.{Fs, FsCmd, block_words, disk_addr, store_word}
use buaa_os_25spring.Fs.Block.{read_block, dirty_block}
use buaa_os_25spring.Fs.File.{
  f_size, f_dir, file_get_block, file_map_block, file_flush, pointer_to, target_of,
}

-- The byte at a byte address of the cache.
abbrev pub byte_at : ℕ → Fs → ℕ
byte_at a s = s.cache (a / 4) / 2 ^ (8 * (a % 4)) % 256

-- A store of one byte.
abbrev pub store_byte : ℕ → ℕ → FsCmd (Unit {0})
store_byte a v s =
    let w = s.cache (a / 4) in
    let k = 2 ^ (8 * (a % 4)) in store_word (a / 4) (w / (k * 256) * (k * 256) + v * k + w % k) s

-- The bytes from `a` up to the first 0, at most `n` of them.
abbrev pub text_at : ℕ → ℕ → Fs → List ℕ
text_at zero a s = []
text_at (suc n) a s =
    let rest = text_at n (a + 1) s in if byte_at a s == 0 then [] else byte_at a s ∷ rest

-- `f->f_name`
abbrev pub f_name : ℕ → Fs → List ℕ
f_name f s = text_at 128 (4 * f) s

-- `strcpy` of a name to a byte address.
unfoldable pub store_text : List ℕ → ℕ → FsCmd (Unit {0})
store_text [] a = store_byte a 0
store_text (x ∷ xs) a = do store_byte a x; store_text xs (a + 1)

-- A file structure has 64 words; there are 16 in a block.
unfoldable pub find_name : ℕ → ℕ → List ℕ → Fs → Option ℕ
find_name zero f name s = none
find_name (suc n) f name s =
    let rest = find_name n (f + 64) name s in
    if is_equal (compare_text name (f_name f s)) then some f else rest

-- The loop of `dir_lookup` with `n` blocks left, at `i`.
unfoldable pub lookup_from : ℕ → ℕ → ℕ → List ℕ → FsCmd ℕ
unfolding find_name
lookup_from zero i dir name = throw e_not_found
lookup_from (suc n) i dir name = do
  blk ← file_get_block dir i
  s ← get
  elim (find_name 16 blk name s) [
    | some f ↦ do store_word (f_dir f) (pointer_to dir); pure f
    | none ↦ lookup_from n (i + 1) dir name
  ]

unfoldable pub dir_lookup : ℕ → List ℕ → FsCmd ℕ
unfolding lookup_from
dir_lookup dir name s = lookup_from (s.cache (f_size dir) / 4096) 0 dir name s

-- The first structure whose name is empty.
unfoldable pub find_unused : ℕ → ℕ → Fs → Option ℕ
find_unused zero f s = none
find_unused (suc n) f s =
    let rest = find_unused n (f + 64) s in if byte_at (4 * f) s == 0 then some f else rest

-- The loop of `dir_alloc_file`; after it, the directory grows by a block.
unfoldable pub unused_from : ℕ → ℕ → ℕ → FsCmd ℕ
unfolding find_unused
unused_from zero i dir = do
  s ← get
  store_word (f_size dir) ((s.cache (f_size dir) + 4096) % 2 ^ 32)
  file_get_block dir i
unused_from (suc n) i dir = do
  blk ← file_get_block dir i
  s ← get
  elim (find_unused 16 blk s) [ some f ↦ pure f | none ↦ unused_from n (i + 1) dir ]

unfoldable pub dir_alloc_file : ℕ → FsCmd ℕ
unfolding unused_from
dir_alloc_file dir s = unused_from (s.cache (f_size dir) / 4096) 0 dir s

-- The loop of `file_close` over the blocks of the directory `dir`, until the one with `f` is found.
abbrev pub close_in : ℕ → Run Fs Bool → FsCmd (Unit {0}) → FsCmd (Unit {0}) → Run Fs (Unit {0})
close_in f (ok isnew s) here rest = if isnew then here s else rest s
close_in f (fail e s) here rest = ok tt s
close_in f panic here rest = panic

-- `dirty_block` where the block `b` contains `f`.
abbrev pub mark_if_inside : ℕ → ℕ → FsCmd Bool
mark_if_inside f b = (do
  _ ← read_block b
  s ← get
  pure (leb (disk_addr b) f && ltb f (disk_addr b + block_words)))

-- The result of `dirty_block` is not looked at.
abbrev pub ignore : Run Fs (Unit {0}) → Run Fs (Unit {0})
ignore (fail e s) = ok tt s
ignore (ok a s) = ok tt s
ignore panic = panic

unfoldable pub close_from : ℕ → ℕ → ℕ → ℕ → FsCmd (Unit {0})
close_from zero i dir f = pure tt
close_from (suc n) i dir f = λ s. elim (file_map_block dir i false s) [
  | fail e t ↦ ok tt t
  | panic ↦ panic
  | ok b t ↦
      close_in f (mark_if_inside f b t) (λ u. ignore (dirty_block b u)) (close_from n (i + 1) dir f)
]

unfoldable pub file_close : ℕ → FsCmd (Unit {0})
unfolding close_from
file_close f = do
  file_flush f
  s ← get
  if s.cache (f_dir f) == 0 then pure tt else (do
    let dir = target_of (s.cache (f_dir f))
    close_from (s.cache (f_size dir) / 4096) 0 dir f
    file_flush dir)
