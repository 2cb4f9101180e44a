-- ===== src/Fs/File/Sure.antt =====
-- fs/fs.c: file_set_size and file_flush return no error.
use buaa_os_25spring.Prelude.{
  ℕ, zero, suc, ◌+◌, ◌-◌, Bool, true, false, ◌||◌, ltb, leb, ◌==◌, if◌then◌else◌, Bool-cases, inl,
  inr,
}
use buaa_os_25spring.Exec.{Run, ok, fail, panic, Cmd, pure, ◌>>◌, and_then}
use buaa_os_25spring.Fs.{Fs, FsCmd, s_nblocks, update_cache, store_word}
use buaa_os_25spring.Fs.Block.{write_block, free_block, block_is_dirty}
use buaa_os_25spring.Fs.File.{
  block_count, ndirect, f_size, f_indirect, f_dir, target_of, panic_on, file_clear_block,
  clear_from, free_indirect, file_truncate, flush_found, file_map_block, flush_from, file_flush,
  flush_dir, file_set_size,
}

-- A run that returns a value or panics.
abbrev pub Sure : {S A : Type 0} → Run S A → Type 0
Sure (ok a s) = Unit {0}
Sure (fail e s) = ⊥
Sure panic = Unit {0}

Sure-and_then :
    {S A B : Type 0} (r : Run S A) (f : A → Cmd S B)
    → Sure r
    → ((a : A) (s : S) → Sure (f a s))
    → Sure (and_then r f)
Sure-and_then (ok a s) f h k = k a s
Sure-and_then (fail e s) f h k = h
Sure-and_then panic f h k = tt

Sure-if :
    {S A : Type 0} (c : Bool) (m k : Cmd S A) (s : S)
    → Sure (m s)
    → Sure (k s)
    → Sure ((if c then m else k) s)
Sure-if true m k s h h' = h
Sure-if false m k s h h' = h'

panic_on-Sure : (r : Run Fs (Unit {0})) → Sure (panic_on r)
panic_on-Sure (ok a s) = tt
panic_on-Sure (fail e s) = tt
panic_on-Sure panic = tt

write_block-Sure : (b : ℕ) (s : Fs) → Sure (write_block b s)
unfolding write_block
write_block-Sure b s = elim (Bool-cases (s.mapped b)) [ inl e ↦ rw e tt | inr e ↦ rw e tt ]

free_block-Sure : (b : ℕ) (s : Fs) → Sure (free_block b s)
unfolding free_block
free_block-Sure b s = elim (Bool-cases (b == 0 || leb (s_nblocks s) b)) [
  | inl e ↦ rw e tt
  | inr e ↦ rw e tt
]

flush_found-Sure : (r : Run Fs ℕ) → Sure (flush_found r)
flush_found-Sure (ok b s) = elim (Bool-cases (block_is_dirty b s)) [
  | inl e ↦ rw e (write_block-Sure b s)
  | inr e ↦ rw e tt
]
flush_found-Sure (fail e s) = tt
flush_found-Sure panic = tt

flush_from-Sure : (n f bno : ℕ) (s : Fs) → Sure (flush_from n f bno s)
unfolding flush_from
flush_from-Sure zero f bno s = tt
flush_from-Sure (suc n) f bno s =
    Sure-and_then (flush_found (file_map_block f bno false s)) (λ _. flush_from n f (bno + 1))
      (flush_found-Sure (file_map_block f bno false s)) (λ _ t. flush_from-Sure n f (bno + 1) t)

clear_from-Sure : (n f bno : ℕ) (s : Fs) → Sure (clear_from n f bno s)
unfolding clear_from
clear_from-Sure zero f bno s = tt
clear_from-Sure (suc n) f bno s =
    Sure-and_then (panic_on (file_clear_block f bno s)) (λ _. clear_from n f (bno + 1))
      (panic_on-Sure (file_clear_block f bno s)) (λ _ t. clear_from-Sure n f (bno + 1) t)

pub file_flush-Sure : (f : ℕ) (s : Fs) → Sure (file_flush f s)
unfolding file_flush
file_flush-Sure f s = flush_from-Sure (block_count (s.cache (f_size f))) f 0 s

flush_dir-Sure : (f : ℕ) (s : Fs) → Sure (flush_dir f s)
unfolding flush_dir
flush_dir-Sure f s =
    Sure-if (s.cache (f_dir f) == 0) (pure tt) (file_flush (target_of (s.cache (f_dir f)))) s tt
      (file_flush-Sure (target_of (s.cache (f_dir f))) s)

free_indirect-Sure : (f : ℕ) (s : Fs) → Sure (free_indirect f s)
unfolding free_indirect
free_indirect-Sure f s = Sure-if (s.cache (f_indirect f) == 0) (pure tt) freed s tt (
    Sure-and_then (free_block (s.cache (f_indirect f)) s) (λ _. store_word (f_indirect f) 0)
      (free_block-Sure (s.cache (f_indirect f)) s) (λ _ t. tt))
  where
    freed : FsCmd (Unit {0})
    freed = free_block (s.cache (f_indirect f)) >> store_word (f_indirect f) 0

file_truncate-Sure : (f newsize : ℕ) (s : Fs) → Sure (file_truncate f newsize s)
unfolding file_truncate
file_truncate-Sure f newsize s =
    Sure-and_then (clear_from (old - new) f new s) (λ _. rest) (clear_from-Sure (old - new) f new s)
      (λ _ t.
        Sure-and_then ((if leb new ndirect then free_indirect f else pure tt) t)
          (λ _. store_word (f_size f) newsize)
          (Sure-if (leb new ndirect) (free_indirect f) (pure tt) t (free_indirect-Sure f t) tt)
          (λ _ u. tt))
  where
    old : ℕ
    old = block_count (s.cache (f_size f))

    new : ℕ
    new = if newsize == 0 then 0 else block_count newsize

    rest : FsCmd (Unit {0})
    rest = (if leb new ndirect then free_indirect f else pure tt) >> store_word (f_size f) newsize

-- `file_set_size` returns no error: it succeeds or panics.
pub file_set_size-Sure : (f newsize : ℕ) (s : Fs) → Sure (file_set_size f newsize s)
unfolding file_set_size
file_set_size-Sure f newsize s =
    Sure-and_then
      ((if ltb newsize (s.cache (f_size f)) then file_truncate f newsize else pure tt) s)
      (λ _. store_word (f_size f) newsize >> flush_dir f)
      (Sure-if (ltb newsize (s.cache (f_size f))) (file_truncate f newsize) (pure tt) s
        (file_truncate-Sure f newsize s) tt)
      (λ _ t. flush_dir-Sure f (record t { cache = update_cache t.cache (f_size f) newsize }))
