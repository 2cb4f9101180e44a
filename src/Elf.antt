-- ===== src/Elf.antt =====
-- lib/elfloader.c: the headers of an executable of include/elf.h, and the loading of a segment. A
-- file is a function from positions to bytes, and what maps a page is an argument, the callback
-- `map_page` of the code.
mod Loops
mod Segment
mod Tests
use buaa_os_25spring.Prelude.{
  ℕ, zero, suc, ◌+◌, ◌-◌, ◌*◌, ◌/◌, ◌%◌, ◌^◌, min, Bool, true, false, ◌&&◌, Option, none, some, ltb,
  leb, ◌==◌, if◌then◌else◌, bit_and, bit_or,
}
use buaa_os_25spring.Exec.{Cmd, pure, ◌>>=◌, ◌>>◌}
use buaa_os_25spring.Mmu.{page_size, pte_v, pte_d}

abbrev pub File : Type 0
File = ℕ → ℕ

-- The little-endian words and half words of a file.
abbrev pub half_at : File → ℕ → ℕ
half_at f a = f a + 256 * f (a + 1)

abbrev pub word_at : File → ℕ → ℕ
word_at f a = half_at f a + 65536 * half_at f (a + 2)

-- The fields of `Elf32_Ehdr` that the code reads.
pub record Ehdr : Type 0 where
  pub e_type : ℕ
  pub e_entry : ℕ
  pub e_phoff : ℕ
  pub e_phentsize : ℕ
  pub e_phnum : ℕ

-- The fields of `Elf32_Phdr` that the code reads.
pub record Phdr : Type 0 where
  pub p_type : ℕ
  pub p_offset : ℕ
  pub p_vaddr : ℕ
  pub p_filesz : ℕ
  pub p_memsz : ℕ
  pub p_flags : ℕ

-- The casts of a position of the file to a header.
abbrev pub ehdr_at : File → Ehdr
ehdr_at f = record {
  e_type = half_at f 16;
  e_entry = word_at f 24;
  e_phoff = word_at f 28;
  e_phentsize = half_at f 42;
  e_phnum = half_at f 44;
}

abbrev pub phdr_at : File → ℕ → Phdr
phdr_at f a = record {
  p_type = word_at f a;
  p_offset = word_at f (a + 4);
  p_vaddr = word_at f (a + 8);
  p_filesz = word_at f (a + 16);
  p_memsz = word_at f (a + 20);
  p_flags = word_at f (a + 24);
}

unfoldable pub elf_from : File → ℕ → Option Ehdr
elf_from binary size =
    if leb 52 size
      && (binary 0 == 0x7f)
      && (binary 1 == 69)
      && (binary 2 == 76)
      && (binary 3 == 70)
      && ((ehdr_at binary).e_type == 2)
    then some (ehdr_at binary)
    else none

-- The arguments of a call of `map_page`; `src` is a position behind `bin`, or NULL.
pub record Piece : Type 0 where
  pub va : ℕ
  pub offset : ℕ
  pub perm : ℕ
  pub src : Option ℕ
  pub len : ℕ

abbrev pub segment_perm : Phdr → ℕ
segment_perm ph = if bit_and ph.p_flags 2 == 0 then pte_v else bit_or pte_v pte_d

module _ {S : Type 0} (map_page : Piece → Cmd S (Unit {0})) where
  -- The loop of Step 1 from `i` on; it yields the last `i`.
  unfoldable pub load_file : ℕ → ℕ → ℕ → ℕ → ℕ → Cmd S ℕ
  load_file zero va perm bin_size i = pure i
  load_file (suc fuel) va perm bin_size i =
      if ltb i bin_size
      then (do
        map_page record {
          va = (va + i) % 2 ^ 32;
          offset = 0;
          perm = perm;
          src = some i;
          len = min (bin_size - i) page_size;
        }
        load_file fuel va perm bin_size ((i + page_size) % 2 ^ 32))
      else pure i

  -- The loop of Step 2.
  unfoldable pub load_zeros : ℕ → ℕ → ℕ → ℕ → ℕ → Cmd S (Unit {0})
  load_zeros zero va perm sgsize i = pure tt
  load_zeros (suc fuel) va perm sgsize i =
      if ltb i sgsize
      then (do
        map_page record {
          va = (va + i) % 2 ^ 32;
          offset = 0;
          perm = perm;
          src = none;
          len = min (sgsize - i) page_size;
        }
        load_zeros fuel va perm sgsize ((i + page_size) % 2 ^ 32))
      else pure tt

  -- The first, partial page of a segment, if there is one, and how many bytes it takes.
  abbrev pub load_first : ℕ → ℕ → ℕ → ℕ → Cmd S ℕ
  load_first va offset perm bin_size = if offset == 0 then pure 0 else (do
    map_page record {
      va = va;
      offset = offset;
      perm = perm;
      src = some 0;
      len = min bin_size (page_size - offset);
    }
    pure (min bin_size (page_size - offset)))

  unfoldable pub elf_load_seg : Phdr → Cmd S (Unit {0})
  elf_load_seg ph = do
    i ← load_first ph.p_vaddr (ph.p_vaddr % page_size) (segment_perm ph) ph.p_filesz
    j ← load_file (suc ph.p_filesz) ph.p_vaddr (segment_perm ph) ph.p_filesz i
    load_zeros (suc ph.p_memsz) ph.p_vaddr (segment_perm ph) ph.p_memsz j
