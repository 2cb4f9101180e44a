-- ===== src/Fs/Block/Sync.antt =====
-- fs/fs.c: fs_sync and unmap_block write to the disk what the cache holds.
use buaa_os_25spring.Prelude.{
  ℕ, zero, suc, ◌+◌, ◌/◌, ◌≡◌, refl, sym, ◌∙◌, ap, Bool, true, false, ◌&&◌, arith, ◌==◌,
  if◌then◌else◌, lt_or_le, Bool-cases, inl, inr, ℕ_discrete, leb, ltb,
}
use mathlib.Core.Path.{subst}
use buaa_os_25spring.Exec.{ok, fail, panic, Run, and_then}
use buaa_os_25spring.Exec.Ends.{Ends}
use buaa_os_25spring.Fs.{Fs, s_nblocks, copy_block}
use buaa_os_25spring.Fs.Block.{block_is_dirty, write_block, sync_from, fs_sync}

-- The disk after the blocks from `b` to `b + n` are written, where they are dirty.
abbrev Synced : ℕ → ℕ → Fs → Fs → Type 0
Synced n b s t =
    (t ≡ record s { disk = t.disk })
    × ((w : ℕ)
        → t.disk w ≡ (
            if (leb b (w / 1024) && ltb (w / 1024) (b + n)) && block_is_dirty (w / 1024) s
            then s.cache w
            else s.disk w))

dirty_mapped : (b : ℕ) (s : Fs) → block_is_dirty b s ≡ true → s.mapped b ≡ true
unfolding block_is_dirty
dirty_mapped b s e = elim (Bool-cases (s.mapped b)) [ inl m ↦ m | inr m ↦ ground (arith, m) ]

one_dirty :
    (n b : ℕ) (s : Fs)
    → block_is_dirty b s ≡ true
    → sync_from (suc n) b s ≡ sync_from n (b + 1) (record s { disk = copy_block b s.cache s.disk })
unfolding sync_from
one_dirty n b s e = rw (sync_from, and_then, e, write_block, dirty_mapped b s e) refl

one_clean :
    (n b : ℕ) (s : Fs) → block_is_dirty b s ≡ false → sync_from (suc n) b s ≡ sync_from n (b + 1) s
unfolding sync_from
one_clean n b s e = rw (sync_from, and_then, e) refl

-- The word at `w` of block `q`, by whether the block is among those still to be written.
first_written :
    (n b q w : ℕ) (d : ℕ → Bool) (c old : ℕ → ℕ)
    → d b ≡ true
    → (if (leb (b + 1) q && ltb q (b + 1 + n)) && d q then c w else if q == b then c w else old w)
      ≡ (if (leb b q && ltb q (b + suc n)) && d q then c w else old w)
first_written n b q w d c old e = elim (ℕ_discrete q b) [
  | yes p ↦ rw (p, e) ground arith
  | no ne ↦ elim (Bool-cases (d q)) [ inl f ↦ rw f ground arith | inr f ↦ rw f ground arith ]
]

first_skipped :
    (n b q w : ℕ) (d : ℕ → Bool) (c old : ℕ → ℕ)
    → d b ≡ false
    → (if (leb (b + 1) q && ltb q (b + 1 + n)) && d q then c w else old w)
      ≡ (if (leb b q && ltb q (b + suc n)) && d q then c w else old w)
first_skipped n b q w d c old e = elim (ℕ_discrete q b) [
  | yes p ↦ rw (p, e) ground arith
  | no ne ↦ elim (Bool-cases (d q)) [ inl f ↦ rw f ground arith | inr f ↦ rw f ground arith ]
]

none_left :
    (b q : ℕ) (d : Bool) (c old : ℕ) → old ≡ (if (leb b q && ltb q (b + 0)) && d then c else old)
none_left b q d c old = elim (lt_or_le q b) [ inl h ↦ ground arith | inr h ↦ ground arith ]

sync_from_zero : (b : ℕ) (s : Fs) → Ends (λ _. Synced 0 b s) (λ _ _. ⊥) (sync_from 0 b s)
unfolding sync_from
sync_from_zero b s =
    (refl, λ w. none_left b (w / 1024) (block_is_dirty (w / 1024) s) (s.cache w) (s.disk w))

after_dirty :
    (n b : ℕ) (s : Fs)
    → block_is_dirty b s ≡ true
    → (r : Run Fs (Unit {0}))
    → Ends (λ _. Synced n (b + 1) (record s { disk = copy_block b s.cache s.disk })) (λ _ _. ⊥) r
    → Ends (λ _. Synced (suc n) b s) (λ _ _. ⊥) r
unfolding block_is_dirty
after_dirty n b s e (ok a t) (frame, words) = (
  frame,
  λ w. words w ∙ first_written n b (w / 1024) w (λ q. block_is_dirty q s) s.cache s.disk e,
)
after_dirty n b s e (fail x t) h = h
after_dirty n b s e panic h = h

after_clean :
    (n b : ℕ) (s : Fs)
    → block_is_dirty b s ≡ false
    → (r : Run Fs (Unit {0})) → Ends (λ _. Synced n (b + 1) s) (λ _ _. ⊥) r
    → Ends (λ _. Synced (suc n) b s) (λ _ _. ⊥) r
after_clean n b s e (ok a t) (frame, words) = (
  frame,
  λ w. words w ∙ first_skipped n b (w / 1024) w (λ q. block_is_dirty q s) s.cache s.disk e,
)
after_clean n b s e (fail x t) h = h
after_clean n b s e panic h = h

sync_from_lem : (n b : ℕ) (s : Fs) → Ends (λ _. Synced n b s) (λ _ _. ⊥) (sync_from n b s)
sync_from_lem zero b s = sync_from_zero b s
sync_from_lem (suc n) b s = elim (Bool-cases (block_is_dirty b s)) [
  | inl e ↦
      let t = record s { disk = copy_block b s.cache s.disk } in
      subst (Ends (λ _. Synced (suc n) b s) (λ _ _. ⊥)) (sym (one_dirty n b s e))
        (after_dirty n b s e (sync_from n (b + 1) t) (sync_from_lem n (b + 1) t))
  | inr e ↦
      subst (Ends (λ _. Synced (suc n) b s) (λ _ _. ⊥)) (sym (one_clean n b s e))
        (after_clean n b s e (sync_from n (b + 1) s) (sync_from_lem n (b + 1) s))
]

abbrev pub AllSynced : Fs → Fs → Type 0
AllSynced s t =
    (t ≡ record s { disk = t.disk })
    × ((w : ℕ)
        → t.disk w ≡ (
            if ltb (w / 1024) (s_nblocks s) && block_is_dirty (w / 1024) s
            then s.cache w
            else s.disk w))

all_synced :
    (s : Fs) (r : Run Fs (Unit {0}))
    → Ends (λ _. Synced (s_nblocks s) 0 s) (λ _ _. ⊥) r
    → Ends (λ _. AllSynced s) (λ _ _. ⊥) r
all_synced s (ok a t) (frame, words) = (
  frame,
  λ w.
      words w
      ∙ ap (λ c. if c && block_is_dirty (w / 1024) s then s.cache w else s.disk w)
          (from_zero (w / 1024) (s_nblocks s)),
)
  where
    from_zero : (q n : ℕ) → (leb 0 q && ltb q (0 + n)) ≡ ltb q n
    from_zero q n = ground arith
all_synced s (fail e t) h = h
all_synced s panic h = h

-- `fs_sync` always returns. Afterwards every word of a block on the disk that was in the cache and
-- dirty is on the disk as it is in memory, every other word of the disk is as before, and nothing
-- else has changed.
pub fs_sync_lem : (s : Fs) → Ends (λ _. AllSynced s) (λ _ _. ⊥) (fs_sync s)
unfolding fs_sync
fs_sync_lem s = all_synced s (sync_from (s_nblocks s) 0 s) (sync_from_lem (s_nblocks s) 0 s)
