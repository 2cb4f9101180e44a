-- ===== src/Fs/File.antt =====
-- fs/fs.c: the blocks of a file.
pub mod Sure
use buaa_os_25spring.Prelude.{
  ℕ, zero, suc, ◌+◌, ◌-◌, ◌*◌, ◌/◌, ◌%◌, ◌^◌, Bool, true, false, not, ltb, leb, ◌==◌, if◌then◌else◌,
}
use buaa_os_25spring.Exec.{
  Run, ok, fail, panic, pure, throw, get, ◌>>=◌, ◌>>◌, e_inval, e_not_found,
}
use buaa_os_25spring.Fs.{Fs, FsCmd, disk_addr, store_word}
use buaa_os_25spring.Fs.Block.{
  read_block, write_block, alloc_block, free_block, dirty_block, block_is_dirty,
}

-- The fields of `struct File` after its name of 32 words.
abbrev pub f_size : ℕ → ℕ
f_size f = f + 32

abbrev pub f_type : ℕ → ℕ
f_type f = f + 33

abbrev pub f_direct : ℕ → ℕ → ℕ
f_direct f i = f + 34 + i

abbrev pub f_indirect : ℕ → ℕ
f_indirect f = f + 44

abbrev pub f_dir : ℕ → ℕ
f_dir f = f + 45

abbrev pub ndirect : ℕ
ndirect = 10

abbrev pub nindirect : ℕ
nindirect = 1024

-- Gives the file an indirect block if it has none and `alloc` is set.
unfoldable pub ensure_indirect : ℕ → Bool → FsCmd (Unit {0})
ensure_indirect f alloc = do
  s ← get
  if not (s.cache (f_indirect f) == 0)
      then pure tt
      else if not alloc
      then throw e_not_found
      else (do b ← alloc_block; store_word (f_indirect f) b)

-- The place of the number of the `filebno`-th block.
unfoldable pub file_block_walk : ℕ → ℕ → Bool → FsCmd ℕ
unfolding ensure_indirect
file_block_walk f filebno alloc =
    if ltb filebno ndirect
    then pure (f_direct f filebno)
    else if ltb filebno nindirect
    then (do
      ensure_indirect f alloc
      s ← get
      _ ← read_block (s.cache (f_indirect f))
      pure (disk_addr (s.cache (f_indirect f)) + filebno))
    else throw e_inval

-- Step 2 of `file_map_block`, for the place that was found.
unfoldable pub ensure_block : ℕ → Bool → FsCmd (Unit {0})
ensure_block ptr alloc = do
  s ← get
  if not (s.cache ptr == 0)
      then pure tt
      else if not alloc
      then throw e_not_found
      else (do b ← alloc_block; store_word ptr b)

unfoldable pub file_map_block : ℕ → ℕ → Bool → FsCmd ℕ
unfolding file_block_walk ensure_block
file_map_block f filebno alloc = do
  ptr ← file_block_walk f filebno alloc
  ensure_block ptr alloc
  s ← get
  pure (s.cache ptr)

unfoldable pub file_clear_block : ℕ → ℕ → FsCmd (Unit {0})
unfolding file_block_walk
file_clear_block f filebno = do
  ptr ← file_block_walk f filebno false
  s ← get
  if s.cache ptr == 0 then pure tt else (do free_block (s.cache ptr); store_word ptr 0)

unfoldable pub file_get_block : ℕ → ℕ → FsCmd ℕ
unfolding file_map_block
file_get_block f filebno = do
  b ← file_map_block f filebno true
  _ ← read_block b
  pure (disk_addr b)

unfoldable pub file_dirty : ℕ → ℕ → FsCmd (Unit {0})
unfolding file_map_block
file_dirty f offset = do b ← file_map_block f (offset / 4096) false; dirty_block b

-- `ROUND(size, BLOCK_SIZE) / BLOCK_SIZE` on 32 bits.
abbrev pub block_count : ℕ → ℕ
block_count size = (size + 4095) % 2 ^ 32 / 4096

-- `panic_on(e)`
abbrev pub panic_on : Run Fs (Unit {0}) → Run Fs (Unit {0})
panic_on (ok a s) = ok a s
panic_on (fail e s) = panic
panic_on panic = panic

-- The loop of `file_truncate` with `n` blocks left, at `bno`.
unfoldable pub clear_from : ℕ → ℕ → ℕ → FsCmd (Unit {0})
unfolding file_clear_block
clear_from zero f bno = pure tt
clear_from (suc n) f bno = do λ s. panic_on (file_clear_block f bno s); clear_from n f (bno + 1)

unfoldable pub free_indirect : ℕ → FsCmd (Unit {0})
free_indirect f = do
  s ← get
  if s.cache (f_indirect f) == 0
      then pure tt
      else (do free_block (s.cache (f_indirect f)); store_word (f_indirect f) 0)

unfoldable pub file_truncate : ℕ → ℕ → FsCmd (Unit {0})
unfolding clear_from free_indirect
file_truncate f newsize = do
  s ← get
  let old_nblocks = block_count (s.cache (f_size f))
  let new_nblocks = if newsize == 0 then 0 else block_count newsize
  clear_from (old_nblocks - new_nblocks) f new_nblocks
  if leb new_nblocks ndirect then free_indirect f else pure tt
  store_word (f_size f) newsize

-- The body of the loop of `file_flush`: a block that is not found is skipped.
abbrev pub flush_found : Run Fs ℕ → Run Fs (Unit {0})
flush_found (ok b s) = if block_is_dirty b s then write_block b s else ok tt s
flush_found (fail e s) = ok tt s
flush_found panic = panic

unfoldable pub flush_from : ℕ → ℕ → ℕ → FsCmd (Unit {0})
unfolding file_map_block
flush_from zero f bno = pure tt
flush_from (suc n) f bno = do
  λ s. flush_found (file_map_block f bno false s)
  flush_from n f (bno + 1)

unfoldable pub file_flush : ℕ → FsCmd (Unit {0})
unfolding flush_from
file_flush f s = flush_from (block_count (s.cache (f_size f))) f 0 s

-- A pointer as the word that holds it, and back; 0 is the null pointer.
abbrev pub pointer_to : ℕ → ℕ
pointer_to f = 0x10000000 + 4 * f

abbrev pub target_of : ℕ → ℕ
target_of p = (p - 0x10000000) / 4

-- `if (f->f_dir) file_flush(f->f_dir);`
unfoldable pub flush_dir : ℕ → FsCmd (Unit {0})
unfolding file_flush
flush_dir f = do
  s ← get
  if s.cache (f_dir f) == 0 then pure tt else file_flush (target_of (s.cache (f_dir f)))

unfoldable pub file_set_size : ℕ → ℕ → FsCmd (Unit {0})
unfolding file_truncate flush_dir
file_set_size f newsize = do
  s ← get
  if ltb newsize (s.cache (f_size f)) then file_truncate f newsize else pure tt
  store_word (f_size f) newsize
  flush_dir f
