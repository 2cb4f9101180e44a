-- ===== src/Fs.antt =====
-- fs/fs.c: the file system server. A block is 1024 words, and a place in the block cache is the
-- number of its word from DISKMAP on: block `b` begins at `1024 * b`, the super block is block 1 and
-- the bitmap begins at block 2. A `struct File *` is the place where the structure begins.
mod Tests
pub mod Block
pub mod File
pub mod Dir
pub mod Path
pub mod Update
use buaa_os_25spring.Prelude.{
  ℕ, zero, suc, ◌+◌, ◌-◌, ◌*◌, ◌/◌, ◌%◌, ◌^◌, Bool, true, false, not, ◌&&◌, ◌||◌, ltb, leb, ◌==◌,
  if◌then◌else◌, bit_and, bit_or,
}
use buaa_os_25spring.Exec.{
  Run, ok, fail, panic, Cmd, pure, throw, halt, get, modify, ◌>>=◌, ◌>>◌, e_no_mem,
}

-- `cache` and `disk` hold the words in memory and on the disk; `mapped` and `dirty` are the bits
-- PTE_V and PTE_DIRTY of the page of each block; `room` is how many pages `syscall_mem_alloc` can
-- still give. `shared` tells of a block in the cache that a client has mapped, too, so that its page
-- is not free once the server has unmapped it. `super` and `bitmap` tell whether these pointers are set.
pub record Fs : Type 0 where
  pub cache : ℕ → ℕ
  pub disk : ℕ → ℕ
  pub mapped : ℕ → Bool
  pub dirty : ℕ → Bool
  pub room : ℕ
  pub shared : ℕ → Bool
  pub super : Bool
  pub bitmap : Bool

abbrev pub FsCmd : Type 0 → Type 0
FsCmd = Cmd Fs

abbrev pub block_words : ℕ
block_words = 1024

-- The first word of a block, `disk_addr(blockno)`.
abbrev pub disk_addr : ℕ → ℕ
disk_addr blockno = blockno * block_words

-- `super->s_nblocks`
abbrev pub s_nblocks : Fs → ℕ
s_nblocks s = s.cache 1025

-- `&super->s_root`
abbrev pub s_root : ℕ
s_root = 1026

-- The word of `bitmap` that holds the bit of a block.
abbrev pub bitmap_word : ℕ → ℕ
bitmap_word blockno = 2048 + blockno / 32

abbrev pub update_bool : (ℕ → Bool) → ℕ → Bool → ℕ → Bool
update_bool f b v c = if c == b then v else f c

abbrev pub update_cache : (ℕ → ℕ) → ℕ → ℕ → ℕ → ℕ
update_cache f a v c = if c == a then v else f c

-- `*ptr = v` in the cache.
abbrev pub store_word : ℕ → ℕ → FsCmd (Unit {0})
store_word a v s = ok tt (record s { cache = update_cache s.cache a v })

-- The words of one block from `g`, all others from `f`.
abbrev pub copy_block : ℕ → (ℕ → ℕ) → (ℕ → ℕ) → ℕ → ℕ
copy_block b g f w = if w / block_words == b then g w else f w
