-- ===== src/Str.antt =====
-- lib/string.c on a memory of bytes. Addresses are numbers; a range does not wrap around the end of
-- the 32-bit address space. Where a loop runs to an end address, its argument is what is left of it.
pub mod Copy
pub mod Text
mod Tests
use buaa_os_25spring.Prelude.{
  ℕ, zero, suc, ◌+◌, ◌-◌, ◌*◌, ◌/◌, ◌%◌, ◌^◌, Bool, true, false, not, ◌&&◌, Option, none, some, ltb,
  ◌==◌, if◌then◌else◌,
}

-- The byte at each address.
abbrev pub Mem : Type 0
Mem = ℕ → ℕ

abbrev pub write : Mem → ℕ → ℕ → Mem
write m a v b = if b == a then v else m b

-- A store of the four bytes `b0` to `b3` as one word.
abbrev pub write_word : Mem → ℕ → ℕ → ℕ → ℕ → ℕ → Mem
write_word m a b0 b1 b2 b3 = write (write (write (write m a b0) (a + 1) b1) (a + 2) b2) (a + 3) b3

-- `while (dst < max) *(char *)dst++ = *(char *)src++;` with `n` bytes left.
unfoldable pub copy_bytes : ℕ → ℕ → ℕ → Mem → Mem
copy_bytes zero dst src m = m
copy_bytes (suc n) dst src m = copy_bytes n (dst + 1) (src + 1) (write m dst (m src))

-- `while (dst + 4 <= max)`, a word at a time, then the remaining bytes.
unfoldable pub copy_words : ℕ → ℕ → ℕ → Mem → Mem
unfolding copy_bytes
copy_words (suc (suc (suc (suc n)))) dst src m =
    copy_words n (dst + 4) (src + 4)
      (write_word m dst (m src) (m (src + 1)) (m (src + 2)) (m (src + 3)))
copy_words n dst src m = copy_bytes n dst src m

-- `while (((u_long)dst & 3) && dst < max)`, then the words.
unfoldable pub copy_aligned : ℕ → ℕ → ℕ → Mem → Mem
unfolding copy_words
copy_aligned zero dst src m = copy_words zero dst src m
copy_aligned (suc n) dst src m =
    let rest = copy_aligned n (dst + 1) (src + 1) (write m dst (m src)) in
    if dst % 4 == 0 then copy_words (suc n) dst src m else rest

unfoldable pub memcpy : ℕ → ℕ → ℕ → Mem → Mem
unfolding copy_aligned copy_bytes
memcpy dst src n m =
    if not (src % 4 == dst % 4) then copy_bytes n dst src m else copy_aligned n dst src m

-- The three loops of `memset` for the byte `c & 0xff`.
unfoldable pub set_bytes : ℕ → ℕ → ℕ → Mem → Mem
set_bytes zero dst byte m = m
set_bytes (suc n) dst byte m = set_bytes n (dst + 1) byte (write m dst byte)

unfoldable pub set_words : ℕ → ℕ → ℕ → Mem → Mem
unfolding set_bytes
set_words (suc (suc (suc (suc n)))) dst byte m =
    set_words n (dst + 4) byte (write_word m dst byte byte byte byte)
set_words n dst byte m = set_bytes n dst byte m

unfoldable pub set_aligned : ℕ → ℕ → ℕ → Mem → Mem
unfolding set_words
set_aligned zero dst byte m = set_words zero dst byte m
set_aligned (suc n) dst byte m =
    let rest = set_aligned n (dst + 1) byte (write m dst byte) in
    if dst % 4 == 0 then set_words (suc n) dst byte m else rest

unfoldable pub memset : ℕ → ℕ → ℕ → Mem → Mem
unfolding set_aligned
memset dst c n m = set_aligned n dst (c % 256) m

-- The loops over a string run on fuel: `none` is a string that has not ended.
unfoldable pub strlen : ℕ → ℕ → Mem → Option ℕ
strlen zero s m = none
strlen (suc fuel) s m =
    let rest = strlen fuel (s + 1) m in
    if m s == 0 then some 0 else elim rest [ none ↦ none | some n ↦ some (n + 1) ]

unfoldable pub strcpy : ℕ → ℕ → ℕ → Mem → Option Mem
strcpy zero dst src m = none
strcpy (suc fuel) dst src m =
    let rest = strcpy fuel (dst + 1) (src + 1) (write m dst (m src)) in
    if m src == 0 then some (write m dst (m src)) else rest

-- The three results of `strcmp`.
pub data Order : Type 0 where
  less equal greater : Order

unfoldable pub strcmp : ℕ → ℕ → ℕ → Mem → Option Order
strcmp zero p q m = none
strcmp (suc fuel) p q m =
    let rest = strcmp fuel (p + 1) (q + 1) m in
    if not (m p == 0) && m p == m q
    then rest
    else if ltb (m p) (m q)
    then some less
    else if ltb (m q) (m p)
    then some greater
    else some equal

-- The first occurrence of `c` before the end; `some none` is the null pointer.
unfoldable pub strchr : ℕ → ℕ → ℕ → Mem → Option (Option ℕ)
strchr zero s c m = none
strchr (suc fuel) s c m =
    let rest = strchr fuel (s + 1) c m in
    if m s == 0 then some none else if m s == c then some (some s) else rest

unfoldable pub strcat : ℕ → ℕ → ℕ → Mem → Option Mem
unfolding strlen strcpy
strcat fuel dest src m = elim (strlen fuel dest m) [
  | none ↦ none
  | some n ↦ strcpy fuel (dest + n) src m
]
