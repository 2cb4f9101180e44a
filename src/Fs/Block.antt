-- ===== src/Fs/Block.antt =====
-- fs/fs.c: the block cache and the bitmap of free blocks.
pub mod Free
pub mod Alloc
pub mod Sync
pub mod Evict
use buaa_os_25spring.Prelude.{
  ℕ, zero, suc, ◌+◌, ◌-◌, ◌*◌, ◌/◌, ◌%◌, ◌^◌, Bool, true, false, not, ◌&&◌, ◌||◌, ltb, leb, ◌==◌,
  if◌then◌else◌, bit_and, bit_or,
}
use buaa_os_25spring.Exec.{
  Run, ok, fail, panic, pure, throw, halt, get, modify, assert, ◌>>=◌, ◌>>◌, e_no_mem, e_no_disk,
  e_not_found,
}
use buaa_os_25spring.Fs.{
  Fs, FsCmd, block_words, disk_addr, s_nblocks, bitmap_word, update_bool, update_cache, store_word,
  copy_block,
}

-- `bitmap[blockno / 32] & (1 << (blockno % 32))`
unfoldable pub bit_is_set : ℕ → Fs → Bool
bit_is_set b s = not (bit_and (s.cache (bitmap_word b)) (2 ^ (b % 32)) == 0)

unfoldable pub block_is_free : ℕ → Fs → Bool
unfolding bit_is_set
block_is_free b s = if not s.super || leb (s_nblocks s) b then false else bit_is_set b s

unfoldable pub block_is_dirty : ℕ → Fs → Bool
block_is_dirty b s = s.mapped b && s.dirty b

unfoldable pub dirty_block : ℕ → FsCmd (Unit {0})
dirty_block b s =
    if not (s.mapped b)
    then fail e_not_found s
    else if s.dirty b
    then ok tt s
    else ok tt (record s { dirty = update_bool s.dirty b true })

-- It panics on a block that is not in the cache. The block stays marked as dirty.
unfoldable pub write_block : ℕ → FsCmd (Unit {0})
write_block b s =
    if not (s.mapped b) then panic else ok tt (record s { disk = copy_block b s.cache s.disk })

-- `syscall_mem_alloc(0, disk_addr(b), PTE_D)`: a page of zeros, not dirty.
unfoldable pub alloc_page : ℕ → FsCmd (Unit {0})
alloc_page b s =
    if s.room == 0
    then fail e_no_mem s
    else ok tt (record s {
      room = s.room - 1;
      mapped = update_bool s.mapped b true;
      dirty = update_bool s.dirty b false;
      cache = copy_block b (λ w. 0) s.cache;
    })

-- `ide_read` of the whole block.
abbrev pub load_block : ℕ → FsCmd (Unit {0})
load_block b s = ok tt (record s { cache = copy_block b s.disk s.cache })

-- Returns whether the block was loaded now.
unfoldable pub read_block : ℕ → FsCmd Bool
unfolding alloc_page block_is_free
read_block b s =
    if s.super && leb (s_nblocks s) b
    then panic
    else if s.bitmap && block_is_free b s
    then panic
    else if s.mapped b
    then ok false s
    else (do alloc_page b; load_block b; pure true) s

unfoldable pub map_block : ℕ → FsCmd (Unit {0})
unfolding alloc_page
map_block b s = if s.mapped b then ok tt s else alloc_page b s

-- `syscall_mem_unmap(0, disk_addr(b))`: the kernel takes the page back if no client has it.
abbrev pub unmap_page : ℕ → FsCmd (Unit {0})
unmap_page b s = ok tt (record s {
  mapped = update_bool s.mapped b false;
  dirty = update_bool s.dirty b false;
  room = if s.shared b then s.room else s.room + 1;
  shared = update_bool s.shared b false;
})

unfoldable pub unmap_block : ℕ → FsCmd (Unit {0})
unfolding block_is_free block_is_dirty write_block
unmap_block b s =
    if not (s.mapped b)
    then ok tt s
    else (do
      if not (block_is_free b s) && block_is_dirty b s then write_block b else pure tt
      unmap_page b)
        s

-- Sets the bit of a block, and clears it.
abbrev pub set_bit : ℕ → Fs → Fs
set_bit b s = record s {
  cache = update_cache s.cache (bitmap_word b) (bit_or (s.cache (bitmap_word b)) (2 ^ (b % 32)));
}

abbrev pub clear_bit : ℕ → Fs → Fs
clear_bit b s = record s {
  cache =
      update_cache s.cache (bitmap_word b)
        (bit_and (s.cache (bitmap_word b)) (2 ^ 32 - 1 - 2 ^ (b % 32)));
}

unfoldable pub free_block : ℕ → FsCmd (Unit {0})
free_block b s = if b == 0 || leb (s_nblocks s) b then ok tt s else ok tt (set_bit b s)

-- The block of the bitmap in which the bit of a block stands.
abbrev pub bitmap_block : ℕ → ℕ
bitmap_block b = b / 32768 + 2

-- The loop of `alloc_block_num` with `n` rounds left, at `b`.
unfoldable pub alloc_from : ℕ → ℕ → FsCmd ℕ
unfolding bit_is_set write_block
alloc_from zero b = throw e_no_disk
alloc_from (suc n) b = do
  s ← get
  elim (bit_is_set b s) [
    | true ↦ do modify (clear_bit b); write_block (bitmap_block b); pure b
    | false ↦ alloc_from n (b + 1)
  ]

unfoldable pub alloc_block_num : FsCmd ℕ
alloc_block_num s = alloc_from (s_nblocks s - 3) 3 s

-- `alloc_block` once `map_block` has returned: the number of the block, or the block is freed again.
abbrev pub keep_if_mapped : ℕ → Run Fs (Unit {0}) → Run Fs ℕ
keep_if_mapped b (ok a s) = ok b s
keep_if_mapped b (fail e s) = (do free_block b; throw e) s
keep_if_mapped b panic = panic

unfoldable pub alloc_block : FsCmd ℕ
unfolding map_block free_block
alloc_block = do b ← alloc_block_num; λ s. keep_if_mapped b (map_block b s)

-- The loop of `fs_sync` with `n` blocks left, at `b`.
unfoldable pub sync_from : ℕ → ℕ → FsCmd (Unit {0})
unfolding block_is_dirty write_block
sync_from zero b = pure tt
sync_from (suc n) b = do
  s ← get
  if block_is_dirty b s then write_block b else pure tt
  sync_from n (b + 1)

unfoldable pub fs_sync : FsCmd (Unit {0})
fs_sync s = sync_from (s_nblocks s) 0 s

-- `read_super` after the block is read: the magic number and the size of the disk are checked.
abbrev pub check_super : Run Fs Bool → Run Fs (Unit {0})
check_super (ok isnew s) =
    if s.cache 1024 == 0x68286097 && leb (s_nblocks s) 0x40000
    then ok tt (record s { super = true })
    else panic
check_super (fail e s) = panic
check_super panic = panic

unfoldable pub read_super : FsCmd (Unit {0})
unfolding read_block
read_super s = check_super (read_block 1 s)

-- The two loops of `read_bitmap`; the result of `read_block` is not looked at.
abbrev pub go_on : Run Fs Bool → Run Fs (Unit {0})
go_on (ok isnew s) = ok tt s
go_on (fail e s) = ok tt s
go_on panic = panic

unfoldable pub read_bitmap_from : ℕ → ℕ → FsCmd (Unit {0})
unfolding read_block
read_bitmap_from zero i = pure tt
read_bitmap_from (suc n) i = do λ s. go_on (read_block (i + 2) s); read_bitmap_from n (i + 1)

unfoldable pub all_used_from : ℕ → ℕ → FsCmd (Unit {0})
unfolding block_is_free
all_used_from zero i = pure tt
all_used_from (suc n) i = do
  s ← get
  assert (not (block_is_free (i + 2) s))
  all_used_from n (i + 1)

unfoldable pub read_bitmap : FsCmd (Unit {0})
unfolding block_is_free
read_bitmap s =
    let n = s_nblocks s / 32768 + 1 in
    (do
      read_bitmap_from n 0
      modify (λ t. record t { bitmap = true })
      t ← get
      assert (not (block_is_free 0 t))
      assert (not (block_is_free 1 t))
      all_used_from n 0)
      s
