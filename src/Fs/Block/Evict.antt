-- ===== src/Fs/Block/Evict.antt =====
-- fs/fs.c: a block that leaves the cache and is read again is as it was.
use buaa_os_25spring.Prelude.{
  ℕ, ◌+◌, ◌/◌, ◌≡◌, ◌≢◌, ◌-◌, Bool, true, false, ◌==◌, if◌then◌else◌, ◌⊎◌,
}
use buaa_os_25spring.Exec.{Error, e_no_mem}
use buaa_os_25spring.Exec.Ends.{Ends}
use buaa_os_25spring.Fs.{Fs, copy_block, update_bool}

-- What is not dirty is on the disk as it is in memory.
abbrev pub Coherent : ℕ → Fs → Type 0
Coherent b s = (s.dirty b ≡ true) ⊎ ((w : ℕ) → w / 1024 ≡ b → s.disk w ≡ s.cache w)

abbrev stored : ℕ → Fs → Fs
stored b s = record s { disk = copy_block b s.cache s.disk }

abbrev unmapped : ℕ → Fs → Fs
unmapped b s = record s {
  mapped = update_bool s.mapped b false;
  dirty = update_bool s.dirty b false;
  room = if s.shared b then s.room else s.room + 1;
  shared = update_bool s.shared b false;
}

-- `s` with the block loaded again from the disk.
abbrev loaded : ℕ → Fs → Fs
loaded b t = record t {
  room = t.room - 1;
  mapped = update_bool t.mapped b true;
  dirty = update_bool t.dirty b false;
  cache = copy_block b t.disk (copy_block b (λ w. 0) t.cache);
}

-- The block's words are on the disk, and no other word of the disk has changed.
abbrev pub Written : ℕ → Fs → Fs → Type 0
Written b s t = (w : ℕ) → t.disk w ≡ (if w / 1024 == b then s.cache w else s.disk w)

-- What is promised of the state after the two: only the dirty bit and the block on the disk differ,
-- and a page that a client has was not given back.
abbrev pub Restored : ℕ → Fs → Bool → Fs → Type 0
Restored b s isnew t =
    (isnew ≡ true)
    × ((w : ℕ) → t.cache w ≡ s.cache w)
    × ((c : ℕ) → t.mapped c ≡ s.mapped c)
    × (t.dirty b ≡ false)
    × ((c : ℕ) → c ≢ b → t.dirty c ≡ s.dirty c)
    × (t.room ≡ (if s.shared b then s.room - 1 else s.room))
    × Written b s t

-- Without memory for the page, the block is out of the cache, but on the disk.
abbrev pub Lost : ℕ → Fs → Error → Fs → Type 0
Lost b s err t =
    (err ≡ e_no_mem)
    × (s.shared b ≡ true)
    × (s.room ≡ 0)
    × ((c : ℕ) → t.mapped c ≡ (if c == b then false else s.mapped c))
    × Written b s t
