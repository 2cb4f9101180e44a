-- ===== src/Mmu/Pte.antt =====
-- Page table entries and the fields of an address (include/mmu.h and include/pmap.h).
use buaa_os_25spring.Prelude.{
  ℕ, ◌*◌, ◌/◌, ◌%◌, ◌^◌, ◌<◌, ◌≡◌, refl, ap, ◌∙◌, Bool, true, false, not, ◌&&◌, bit_and, bit_or,
  ◌==◌, arith,
}
use buaa_os_25spring.Prelude.Bits.{bit, bit-bit_or, bit_or-shr, bit_or-zero, bit_and-pow}

unfoldable pub pdx : ℕ → ℕ
pdx va = va / 2 ^ 22 % 1024

unfoldable pub ptx : ℕ → ℕ
ptx va = va / 2 ^ 12 % 1024

unfoldable pub ppn : ℕ → ℕ
ppn pa = pa / 2 ^ 12

unfoldable pub pte_addr : ℕ → ℕ
pte_addr pte = pte / 2 ^ 12 * 2 ^ 12

unfoldable pub pte_flags : ℕ → ℕ
pte_flags pte = pte % 2 ^ 12

abbrev pub pte_g : ℕ
pte_g = 0x40

abbrev pub pte_v : ℕ
pte_v = 0x80

abbrev pub pte_d : ℕ
pte_d = 0x100

abbrev pub pte_c_cacheable : ℕ
pte_c_cacheable = 0x600

abbrev pub pte_library : ℕ
pte_library = 0x0002

-- `*pte & PTE_V`, as a condition.
unfoldable pub is_valid : ℕ → Bool
is_valid pte = not (bit_and pte pte_v == 0)

unfoldable pub page2pa : ℕ → ℕ
page2pa pp = pp * 2 ^ 12

-- `page2pa(pp) | perm | PTE_C_CACHEABLE | PTE_V`
unfoldable pub entry : ℕ → ℕ → ℕ
unfolding page2pa
entry pp perm = bit_or (bit_or (bit_or (page2pa pp) perm) pte_c_cacheable) pte_v

-- A valid entry is one with bit 7 set.
pub is_valid-bit : (pte : ℕ) → is_valid pte ≡ (bit pte 7 == 1)
unfolding is_valid
is_valid-bit pte = ground (arith, bit_and-pow 7 pte)

pub is_valid-entry : (pp perm : ℕ) → is_valid (entry pp perm) ≡ true
unfolding entry
is_valid-entry pp perm = ground (
  arith,
  is_valid-bit (entry pp perm),
  bit-bit_or 7 (bit_or (bit_or (page2pa pp) perm) pte_c_cacheable) pte_v,
)

-- The page number of an entry is the page, unless `perm` reaches above the twelve flag bits.
pub ppn-entry_any : (pp perm : ℕ) → ppn (entry pp perm) ≡ bit_or pp (perm / 2 ^ 12)
unfolding ppn entry
ppn-entry_any pp perm =
    simp (bit_or-shr 12, bit_or-zero) (ap (λ t. bit_or t (perm / 2 ^ 12)) (omega arith))

pub ppn-entry : (pp perm : ℕ) → perm < 2 ^ 12 → ppn (entry pp perm) ≡ pp
ppn-entry pp perm h = ppn-entry_any pp perm ∙ ap (bit_or pp) (omega arith) ∙ bit_or-zero pp

pub ppn-pte_addr : (pte : ℕ) → ppn (pte_addr pte) ≡ ppn pte
unfolding ppn pte_addr
ppn-pte_addr pte = omega arith

-- What `create` writes in the directory is an entry with no permission bits of its own.
pub dir_entry : (pp : ℕ) → bit_or (bit_or (page2pa pp) pte_c_cacheable) pte_v ≡ entry pp 0
unfolding entry
dir_entry pp = simp bit_or-zero

pub pdx-lt : (va : ℕ) → pdx va < 1024
unfolding pdx
pdx-lt va = omega arith

pub ptx-lt : (va : ℕ) → ptx va < 1024
unfolding ptx
ptx-lt va = omega arith

-- A user address lies below the first 509 directory entries.
pub pdx-lt_user : (va : ℕ) → va < 0x7f400000 → pdx va < 509
unfolding pdx
pdx-lt_user va h = omega arith

-- Two 32-bit addresses with the same fields lie on one page.
pub fields_page :
    (va vb : ℕ)
    → va < 2 ^ 32
    → vb < 2 ^ 32
    → pdx va ≡ pdx vb
    → ptx va ≡ ptx vb
    → va / 2 ^ 12 ≡ vb / 2 ^ 12
unfolding pdx ptx
fields_page va vb ha hb p q = omega arith

pub page_fields : (va vb : ℕ) → va / 2 ^ 12 ≡ vb / 2 ^ 12 → (pdx va ≡ pdx vb) × (ptx va ≡ ptx vb)
unfolding pdx ptx
page_fields va vb e = omega arith

pub not-is_valid-zero : is_valid 0 ≡ false
unfolding is_valid
not-is_valid-zero = refl

-- The two index fields of a 32-bit address say which page it lies on.
pub same_page :
    (va vb : ℕ)
    → va < 2 ^ 32
    → vb < 2 ^ 32
    → (pdx va == pdx vb && ptx va == ptx vb) ≡ (va / 2 ^ 12 == vb / 2 ^ 12)
same_page va vb ha hb = ground (arith, fields_page va vb ha hb, page_fields va vb)
