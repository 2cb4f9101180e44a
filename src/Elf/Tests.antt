-- ===== src/Elf/Tests.antt =====
-- The loading of a segment of eight bytes of the file and four zeros at a page boundary, and of one
-- whose file bytes end within its first, partial page.
use buaa_os_25spring.Prelude.{ℕ, ◌+◌, ◌-◌, ◌/◌, ◌≡◌, refl, Option, none, some, ◌==◌, if◌then◌else◌}
use buaa_os_25spring.Exec.{Run, ok, fail, Cmd, Error, e_no_mem}
use buaa_os_25spring.Exec.Ends.{Ends}
use buaa_os_25spring.Mmu.{page_size}
use buaa_os_25spring.Elf.{File, Piece, Phdr, elf_load_seg, load_file, load_zeros}
use buaa_os_25spring.Elf.Loops.{Bytes, fresh_byte}

abbrev data_segment : Phdr
data_segment = record {
  p_type = 1;
  p_offset = 4096;
  p_vaddr = 0x401000;
  p_filesz = 8;
  p_memsz = 12;
  p_flags = 6;
}

-- The bytes of an address space, and how many pages can still be given.
pub record Memory : Type 0 where
  pub bytes : Bytes
  pub free : ℕ

unfoldable fresh_page : File → Piece → Cmd Memory (Unit {0})
fresh_page bin p s =
    if s.free == 0
    then fail e_no_mem s
    else ok tt (record s {
      bytes =
          λ a. if a / page_size == p.va / page_size then some (fresh_byte bin p a) else s.bytes a;
      free = s.free - 1;
    })

abbrev two_pages : Memory
two_pages = record { bytes = λ a. none; free = 2 }

-- Two bytes at 0x401ffc, and ten zeros.
abbrev split_segment : Phdr
split_segment = record {
  p_type = 1;
  p_offset = 4092;
  p_vaddr = 0x401ff0;
  p_filesz = 2;
  p_memsz = 12;
  p_flags = 6;
}

abbrev byte_after : ℕ → Run Memory (Unit {0}) → Option ℕ
byte_after a (ok r t) = t.bytes a
byte_after a r = none

-- The page of the zeros takes the place of the page with the file's bytes.
bytes_lost :
    byte_after 0x401ff0 (elf_load_seg (fresh_page (λ k. 65 + k)) split_segment two_pages) ≡ some 0
unfolding elf_load_seg load_file load_zeros fresh_page
bytes_lost = refl

abbrev error_of : Run Memory (Unit {0}) → Option Error
error_of (fail e t) = some e
error_of r = none

-- With one free page the second one is not given.
no_memory :
    error_of (elf_load_seg (fresh_page (λ k. 65 + k)) split_segment (record two_pages { free = 1 }))
    ≡ some e_no_mem
unfolding elf_load_seg load_file load_zeros fresh_page
no_memory = refl
