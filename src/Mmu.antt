-- ===== src/Mmu.antt =====
-- include/mmu.h: page numbers, page table entries and the layout of the address space. Words are
-- 32 bits wide; a shift is `/ 2 ^ k`, and `& ~0xFFF` drops the last twelve bits.
mod Pte
unfoldable pub use Pte.*
use buaa_os_25spring.Prelude.{ℕ, ◌-◌, ◌*◌}

abbrev pub page_size : ℕ
page_size = 4096

abbrev pub pdmap : ℕ
pdmap = 4 * 1024 * 1024

abbrev pub ulim : ℕ
ulim = 0x80000000

abbrev pub uvpt : ℕ
uvpt = ulim - pdmap

abbrev pub upages : ℕ
upages = uvpt - pdmap

abbrev pub uenvs : ℕ
uenvs = upages - pdmap

abbrev pub utop : ℕ
utop = uenvs

abbrev pub ustacktop : ℕ
ustacktop = utop - 2 * page_size

abbrev pub utext : ℕ
utext = pdmap

abbrev pub utemp : ℕ
utemp = utext - page_size - page_size
