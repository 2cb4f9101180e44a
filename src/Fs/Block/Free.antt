-- ===== src/Fs/Block/Free.antt =====
-- fs/fs.c: the bitmap as the set of the free blocks.
use buaa_os_25spring.Prelude.{
  ℕ, ◌-◌, ◌/◌, ◌%◌, ◌^◌, ◌≡◌, ◌≢◌, refl, ◌∙◌, Bool, true, false, not, ◌&&◌, ◌||◌, arith, ltb, leb,
  ◌==◌, if◌then◌else◌, bit_and, bit_or, Bool-cases, inl, inr, ℕ_discrete,
}
use buaa_os_25spring.Prelude.Bits.{bit, nonzero-bit, bit_set, bit_cleared}
use buaa_os_25spring.Exec.Ends.{Ends}
use buaa_os_25spring.Fs.{Fs, s_nblocks, bitmap_word, update_cache}
use buaa_os_25spring.Fs.Block.{bit_is_set, block_is_free, set_bit, clear_bit, free_block}

-- A block is free exactly if its bit is set.
is_set-bit : (b : ℕ) (s : Fs) → bit_is_set b s ≡ (bit (s.cache (bitmap_word b)) (b % 32) == 1)
unfolding bit_is_set
is_set-bit b s = nonzero-bit (s.cache (bitmap_word b)) (b % 32)

-- A write to the word of `b` shows in the blocks of that word only.
word_here :
    (f : ℕ → ℕ) (b j v : ℕ) → b / 32 ≡ j / 32 → update_cache f (bitmap_word b) v (bitmap_word j) ≡ v
word_here f b j v e = ground arith

word_other :
    (f : ℕ → ℕ) (b j v : ℕ)
    → b / 32 ≢ j / 32
    → update_cache f (bitmap_word b) v (bitmap_word j) ≡ f (bitmap_word j)
word_other f b j v ne = ground arith

same_word : (i j : ℕ) → i / 32 ≡ j / 32 → (i % 32 == j % 32) ≡ (j == i)
same_word i j e = ground arith

other_word : (i j : ℕ) → i / 32 ≢ j / 32 → (j == i) ≡ false
other_word i j ne = ground arith

abbrev or_word : ℕ → Fs → ℕ
or_word b s = bit_or (s.cache (bitmap_word b)) (2 ^ (b % 32))

abbrev and_word : ℕ → Fs → ℕ
and_word b s = bit_and (s.cache (bitmap_word b)) (2 ^ 32 - 1 - 2 ^ (b % 32))

pub is_set-set_bit : (b j : ℕ) (s : Fs) → bit_is_set j (set_bit b s) ≡ (j == b || bit_is_set j s)
is_set-set_bit b j s = elim (ℕ_discrete (b / 32) (j / 32)) [
  | yes e ↦
      rw
        (
          is_set-bit j (set_bit b s),
          is_set-bit j s,
          word_here s.cache b j (or_word b s) e,
          e,
          ← same_word b j e,
        )
        (bit_set (s.cache (bitmap_word j)) (b % 32) (j % 32) (omega arith) (omega arith))
  | no ne ↦
      rw
        (
          is_set-bit j (set_bit b s),
          is_set-bit j s,
          word_other s.cache b j (or_word b s) ne,
          other_word b j ne,
        )
        refl
]

pub is_set-clear_bit :
    (b j : ℕ) (s : Fs) → bit_is_set j (clear_bit b s) ≡ (not (j == b) && bit_is_set j s)
is_set-clear_bit b j s = elim (ℕ_discrete (b / 32) (j / 32)) [
  | yes e ↦
      rw
        (
          is_set-bit j (clear_bit b s),
          is_set-bit j s,
          word_here s.cache b j (and_word b s) e,
          e,
          ← same_word b j e,
        )
        (bit_cleared (s.cache (bitmap_word j)) (b % 32) (j % 32) (omega arith) (omega arith))
  | no ne ↦
      rw
        (
          is_set-bit j (clear_bit b s),
          is_set-bit j s,
          word_other s.cache b j (and_word b s) ne,
          other_word b j ne,
        )
        refl
]

-- The super block stands before the bitmap.
pub nblocks_kept : (f : ℕ → ℕ) (b v : ℕ) → update_cache f (bitmap_word b) v 1025 ≡ f 1025
nblocks_kept f b v = ground arith

super_set :
    (j : ℕ) (s : Fs)
    → s.super ≡ true
    → block_is_free j s ≡ (if leb (s_nblocks s) j then false else bit_is_set j s)
unfolding block_is_free
super_set j s h = rw h refl

-- What `free_block` does to the set, and that it changes nothing but one word in memory.
abbrev pub Freed : ℕ → Fs → Fs → Type 0
Freed b s t =
    ((j : ℕ)
      → block_is_free j t ≡ ((not (b == 0) && ltb b (s_nblocks s) && j == b) || block_is_free j s))
    × (t ≡ record s { cache = t.cache })
    × ((w : ℕ) → w ≢ bitmap_word b → t.cache w ≡ s.cache w)

freed_bit :
    (b j n : ℕ) (c : Bool)
    → (b == 0 || leb n b) ≡ false
    → (if leb n j then false else j == b || c)
      ≡ ((not (b == 0) && ltb b n && j == b) || (if leb n j then false else c))
freed_bit b j n true h = ground arith
freed_bit b j n false h = ground arith

no_block :
    (b j n : ℕ) (c : Bool)
    → (b == 0 || leb n b) ≡ true
    → c ≡ ((not (b == 0) && ltb b n && j == b) || c)
no_block b j n true h = ground arith
no_block b j n false h = ground arith

set_bit-Freed :
    (b : ℕ) (s : Fs)
    → s.super ≡ true
    → (b == 0 || leb (s_nblocks s) b) ≡ false
    → Freed b s (set_bit b s)
set_bit-Freed b s h e = (
  λ j.
      super_set j (set_bit b s) h
      ∙ rw (nblocks_kept s.cache b (or_word b s), is_set-set_bit b j s, super_set j s h)
          (freed_bit b j (s_nblocks s) (bit_is_set j s) e),
  refl,
  λ w ne. ground arith,
)

-- Once the super block is read, `free_block` of a block number frees that block if it is not 0 and
-- is on the disk, and leaves every other block as it was. It changes nothing but one word of the
-- bitmap in memory.
pub free_block_lem :
    (b : ℕ) (s : Fs) → s.super ≡ true → Ends (λ _ t. Freed b s t) (λ _ _. ⊥) (free_block b s)
unfolding free_block
free_block_lem b s h = elim (Bool-cases (b == 0 || leb (s_nblocks s) b)) [
  | inl e ↦ rw e (λ j. no_block b j (s_nblocks s) (block_is_free j s) e, refl, λ w ne. refl)
  | inr e ↦ rw e (set_bit-Freed b s h e)
]
