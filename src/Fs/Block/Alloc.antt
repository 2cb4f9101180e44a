-- ===== src/Fs/Block/Alloc.antt =====
-- fs/fs.c: alloc_block_num and alloc_block against the set of the free blocks.
use buaa_os_25spring.Prelude.{
  ℕ, zero, suc, ◌+◌, ◌-◌, ◌/◌, ◌<◌, ◌≤◌, ◌≡◌, ◌≢◌, refl, sym, ◌∙◌, Bool, true, false, not, ◌&&◌,
  ◌||◌, arith, leb, ◌==◌, ==_iff, Bool-cases, inl, inr, ℕ_discrete, ◌⊎◌, ap,
}
use mathlib.Core.Path.{subst}
use mathlib.Core.Bool.{true≢false}
use buaa_os_25spring.Exec.{ok, fail, panic, Run, Error, e_no_disk, e_no_mem, and_then}
use buaa_os_25spring.Exec.Ends.{Ends, bind, allow_error}
use buaa_os_25spring.Fs.{Fs, s_nblocks, bitmap_word, copy_block, update_bool}
use buaa_os_25spring.Fs.Block.{
  bit_is_set, clear_bit, set_bit, write_block, bitmap_block, alloc_from, alloc_block_num, map_block,
  alloc_block, alloc_page, keep_if_mapped, free_block,
}
use buaa_os_25spring.Fs.Block.Free.{is_set-clear_bit, is_set-set_bit}

-- The state with `b` taken out of the set, in memory and on the disk.
abbrev taken : ℕ → Fs → Fs
taken b s = record (clear_bit b s) {
  disk = copy_block (bitmap_block b) (clear_bit b s).cache s.disk;
}

-- The blocks of the bitmap are in the cache.
abbrev pub BitmapMapped : Fs → Type 0
BitmapMapped s = (j : ℕ) → j < s_nblocks s → s.mapped (bitmap_block j) ≡ true

-- Outcomes of the loop with `n` rounds left at `b`.
abbrev Found : ℕ → ℕ → Fs → ℕ → Fs → Type 0
Found n b s r t =
    (b ≤ r)
    × (r < b + n)
    × (bit_is_set r s ≡ true)
    × (t ≡ taken r s)
    × ((j : ℕ) → b ≤ j → j < r → bit_is_set j s ≡ false)

abbrev NoneFree : ℕ → ℕ → Fs → Error → Fs → Type 0
NoneFree n b s e t =
    (e ≡ e_no_disk) × (t ≡ s) × ((j : ℕ) → b ≤ j → j < b + n → bit_is_set j s ≡ false)

alloc_from-true :
    (n b : ℕ) (s : Fs)
    → s.mapped (bitmap_block b) ≡ true
    → bit_is_set b s ≡ true
    → alloc_from (suc n) b s ≡ ok b (taken b s)
unfolding alloc_from
alloc_from-true n b s m e = rw (alloc_from, and_then, e, write_block, m) refl

alloc_from-false :
    (n b : ℕ) (s : Fs) → bit_is_set b s ≡ false → alloc_from (suc n) b s ≡ alloc_from n (b + 1) s
unfolding alloc_from
alloc_from-false n b s e = rw (alloc_from, and_then, e) refl

Found-later :
    (n b : ℕ) (s : Fs)
    → bit_is_set b s ≡ false
    → (r : Run Fs ℕ) → Ends (Found n (b + 1) s) (NoneFree n (b + 1) s) r
    → Ends (Found (suc n) b s) (NoneFree (suc n) b s) r
Found-later n b s e (ok r t) (lo, hi, free, new, below) = (
  omega arith,
  omega arith,
  free,
  new,
  λ j h h'. elim (ℕ_discrete b j) [ yes q ↦ rw (← q) e | no ne ↦ below j (omega arith) h' ],
)
Found-later n b s e (fail x t) (name, same, all) = (
  name,
  same,
  λ j h h'. elim (ℕ_discrete b j) [
    | yes q ↦ rw (← q) e
    | no ne ↦ all j (omega arith) (omega arith)
  ],
)
Found-later n b s e panic h = h

alloc_from_zero : (b : ℕ) (s : Fs) → Ends (Found 0 b s) (NoneFree 0 b s) (alloc_from 0 b s)
unfolding alloc_from
alloc_from_zero b s = (refl, refl, λ j lo hi. absurd (omega arith))

alloc_from_lem :
    (n b : ℕ) (s : Fs)
    → ((j : ℕ) → b ≤ j → j < b + n → s.mapped (bitmap_block j) ≡ true)
    → Ends (Found n b s) (NoneFree n b s) (alloc_from n b s)
alloc_from_lem zero b s m = alloc_from_zero b s
alloc_from_lem (suc n) b s m = elim (Bool-cases (bit_is_set b s)) [
  | inl e ↦
      subst (Ends (Found (suc n) b s) (NoneFree (suc n) b s))
        (sym (alloc_from-true n b s (m b (omega arith) (omega arith)) e))
        (omega arith, omega arith, e, refl, λ j lo hi. absurd (omega arith))
  | inr e ↦
      subst (Ends (Found (suc n) b s) (NoneFree (suc n) b s)) (sym (alloc_from-false n b s e)) (
        Found-later n b s e (alloc_from n (b + 1) s)
          (alloc_from_lem n (b + 1) s (λ j lo hi. m j (omega arith) (omega arith))))
]

-- What `alloc_block_num` promises: the first free block from 3 on, which alone leaves the set, in
-- memory and in the block of the bitmap on the disk.
abbrev pub Allocated : Fs → ℕ → Fs → Type 0
Allocated s b t =
    (3 ≤ b)
    × (b < s_nblocks s)
    × (bit_is_set b s ≡ true)
    × ((j : ℕ) → bit_is_set j t ≡ (not (j == b) && bit_is_set j s))
    × (t ≡ record s { cache = t.cache; disk = copy_block (bitmap_block b) t.cache s.disk })
    × ((w : ℕ) → w ≢ bitmap_word b → t.cache w ≡ s.cache w)
    × ((j : ℕ) → 3 ≤ j → j < b → bit_is_set j s ≡ false)

abbrev pub Full : Fs → Error → Fs → Type 0
Full s e t =
    (e ≡ e_no_disk) × (t ≡ s) × ((j : ℕ) → 3 ≤ j → j < s_nblocks s → bit_is_set j s ≡ false)

Found-Allocated :
    (s : Fs) (r : Run Fs ℕ)
    → Ends (Found (s_nblocks s - 3) 3 s) (NoneFree (s_nblocks s - 3) 3 s) r
    → Ends (Allocated s) (Full s) r
unfolding bit_is_set
Found-Allocated s (ok b t) (lo, hi, free, new, below) = (
  lo,
  omega arith,
  free,
  λ j. rw new (is_set-clear_bit b j s),
  rw new refl,
  λ w ne. rw new (ground arith),
  below,
)
Found-Allocated s (fail e t) (name, same, all) = (name, same, λ j lo hi. all j lo (omega arith))
Found-Allocated s panic h = h

-- With the bitmap in the cache, `alloc_block_num` never panics. If it returns a block, this is the
-- first free block from 3 on and lies on the disk; afterwards it alone is no longer free, one word
-- of the cache has changed, and the block of the bitmap with that word is on the disk as it is in
-- memory. It fails only with E_NO_DISK, with the state unchanged, when no block from 3 on is free.
pub alloc_block_num_lem :
    (s : Fs) → BitmapMapped s → Ends (Allocated s) (Full s) (alloc_block_num s)
unfolding alloc_block_num
alloc_block_num_lem s m =
    Found-Allocated s (alloc_from (s_nblocks s - 3) 3 s)
      (alloc_from_lem (s_nblocks s - 3) 3 s (λ j lo hi. m j (omega arith)))

-- What `alloc_block` promises: the same, with the block in the cache.
abbrev pub BlockReady : Fs → ℕ → Fs → Type 0
BlockReady s b t =
    (3 ≤ b)
    × (b < s_nblocks s)
    × (bit_is_set b s ≡ true)
    × ((j : ℕ) → j < s_nblocks s → bit_is_set j t ≡ (not (j == b) && bit_is_set j s))
    × (t.mapped b ≡ true)
    × (s_nblocks t ≡ s_nblocks s)
    × ((w : ℕ) → w ≢ bitmap_word b → w / 1024 ≢ b → t.cache w ≡ s.cache w)

abbrev pub NoRoom : Fs → Error → Fs → Type 0
NoRoom s e t = (e ≡ e_no_mem) × (s.room ≡ 0) × ((j : ℕ) → bit_is_set j t ≡ bit_is_set j s)

-- Outcomes of `map_block`.
abbrev Mapped : ℕ → Fs → Run Fs (Unit {0}) → Type 0
Mapped b s r =
    Ends
      (λ _ t.
        (t.mapped b ≡ true)
        × ((w : ℕ) → (s.mapped b ≡ true) ⊎ (w / 1024 ≢ b) → t.cache w ≡ s.cache w))
      (λ e t. (e ≡ e_no_mem) × (s.room ≡ 0) × (t ≡ s)) r

update_self : (f : ℕ → Bool) (b : ℕ) → update_bool f b true b ≡ true
update_self f b = ground arith

map_block-Mapped : (b : ℕ) (s : Fs) → Mapped b s (map_block b s)
unfolding map_block alloc_page
map_block-Mapped b s = elim (Bool-cases (s.mapped b)) [
  | inl e ↦ rw (map_block, e) (e, λ w h. refl)
  | inr e ↦ elim (Bool-cases (s.room == 0)) [
    | inl z ↦ rw (map_block, alloc_page, e, z) (refl, (==_iff _ _).0 z, refl)
    | inr z ↦
        rw (map_block, alloc_page, e, z)
          (update_self s.mapped b, λ w h. elim h [ inl q ↦ absurd (cc) | inr ne ↦ ground arith ])
  ]
]

same_bit :
    (j : ℕ) (s t : Fs)
    → t.cache (bitmap_word j) ≡ s.cache (bitmap_word j)
    → bit_is_set j t ≡ bit_is_set j s
unfolding bit_is_set
same_bit j s t e = rw e refl

free_step :
    (b : ℕ) (s : Fs)
    → (b == 0 || leb (s_nblocks s) b) ≡ false
    → free_block b s ≡ ok tt (set_bit b s)
unfolding free_block
free_step b s e = rw (free_block, e) refl

on_disk : (b n : ℕ) → 3 ≤ b → b < n → (b == 0 || leb n b) ≡ false
on_disk b n lo hi = ground arith

back_again : (j b : ℕ) (f : ℕ → Bool) → f b ≡ true → (j == b || (not (j == b) && f j)) ≡ f j
back_again j b f h = elim (ℕ_discrete j b) [ yes q ↦ rw (q, h) ground arith | no ne ↦ ground arith ]

-- A block that is not in the cache is not one of the bitmap.
not_bitmap :
    (s : Fs) (b j : ℕ)
    → BitmapMapped s
    → j < s_nblocks s
    → (s.mapped b ≡ true) ⊎ (bitmap_word j / 1024 ≢ b)
not_bitmap s b j m lt = elim (Bool-cases (s.mapped b)) [
  | inl e ↦ inl e
  | inr e ↦ inr (λ q. true≢false (sym (m j lt) ∙ ap s.mapped (place ∙ q) ∙ e))
]
  where
    place : bitmap_block j ≡ bitmap_word j / 1024
    place = omega arith

kept :
    (s : Fs) (b : ℕ) (u : Fs) (r : Run Fs (Unit {0}))
    → BitmapMapped s
    → Allocated s b u
    → Mapped b u r
    → Ends (BlockReady s) (λ e t. Full s e t ⊎ NoRoom s e t) (keep_if_mapped b r)
kept s b u (ok a t) m (lo, hi, free, set, frame, words, least) (mapped, same) = (
  lo,
  hi,
  free,
  λ j lt.
      same_bit j u t (
        same (bitmap_word j) (
          subst (λ (f : ℕ → Bool). (f b ≡ true) ⊎ (bitmap_word j / 1024 ≢ b))
            (sym (ap (λ x. x.mapped) frame)) (not_bitmap s b j m lt)))
      ∙ set j,
  mapped,
  same 1025 (inr (omega arith)) ∙ words 1025 (omega arith),
  λ w ne far. same w (inr far) ∙ words w ne,
)
kept s b u (fail e t) m (lo, hi, free, set, frame, words, least) (name, room, same) =
    rw (same, free_step b u (on_disk b (s_nblocks u) lo (rw (words 1025 (omega arith)) hi)))
      (inr (
        name,
        ap (λ x. x.room) (sym frame) ∙ room,
        λ j. is_set-set_bit b j u ∙ rw (set j) (back_again j b (λ i. bit_is_set i s) free),
      ))
kept s b u panic m h absurdity = absurdity

-- With the bitmap in the cache, `alloc_block` never panics. If it returns a block, this was free, is
-- at least 3 and on the disk, and is now in the cache; of the blocks on the disk it alone is no
-- longer free, and only its own words and one word of the bitmap have changed in memory. It fails
-- with E_NO_DISK, the state unchanged, when no block from 3 on is free, or with E_NO_MEM when there
-- is no page left, and then the same blocks as before are free in memory.
pub alloc_block_lem :
    (s : Fs)
    → BitmapMapped s
    → Ends (BlockReady s) (λ e t. Full s e t ⊎ NoRoom s e t) (alloc_block s)
unfolding alloc_block
alloc_block_lem s m =
    bind (Allocated s) (BlockReady s) (λ e t. Full s e t ⊎ NoRoom s e t) (alloc_block_num s)
      (λ b u. keep_if_mapped b (map_block b u))
      (allow_error (Allocated s) {E = Full s} (λ e t. Full s e t ⊎ NoRoom s e t) (alloc_block_num s)
        (alloc_block_num_lem s m) (λ e t h. inl h))
      (λ b u h. kept s b u (map_block b u) m h (map_block-Mapped b u))
