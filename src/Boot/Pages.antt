-- ===== src/Boot/Pages.antt =====
-- What `page_init` and the set-up of the memory leave: the free list of kern/pmap.c.
use buaa_os_25spring.Prelude.{
  ℕ, ◌+◌, ◌-◌, ◌*◌, ◌/◌, ◌%◌, ◌^◌, ◌≤◌, ◌<◌, ◌≡◌, refl, sym, ap, ◌∙◌, [], arith, lt→ltb, le→not_ltb,
}
use buaa_os_25spring.Exec.{Run, ok, fail, panic, and_then}
use mathlib.Core.Path.{subst}
use buaa_os_25spring.Exec.Ends.{Ends}
use buaa_os_25spring.Mmu.{page_size, ppn, ulim}
use buaa_os_25spring.Pmap.{Pmem}
use buaa_os_25spring.Str.{memset}
use buaa_os_25spring.Boot.{
  Boot, mark_used, mark_free, page_init, init_memory, mips_vm_init, alloc, mips_detect_memory,
  round, paddr,
}
use buaa_os_25spring.Boot.Loops.{SetUp, loops-SetUp, mark_free-list, mark_used-keeps}

paddr_lem : {S : Type 0} (kva : ℕ) (s : S) → ulim ≤ kva → paddr kva s ≡ ok (kva - ulim) s
unfolding paddr
paddr_lem kva s h = rw (le→not_ltb kva ulim h) refl

page_count : (used n : ℕ) (m : Pmem) → (mark_free n used (mark_used used 0 m)).npage ≡ m.npage
page_count used n m = (mark_free-list n used (mark_used used 0 m)).1 ∙ (mark_used-keeps used 0 m).1

loops-SetUp_by :
    (used n : ℕ) (m : Pmem)
    → m.page_free_list ≡ []
    → used ≤ m.npage
    → n ≡ m.npage - used
    → SetUp used (mark_free n used (mark_used used 0 m))
loops-SetUp_by used n m e h i =
    subst (λ c. SetUp used (mark_free c used (mark_used used 0 m))) (sym i) (loops-SetUp used m e h)

-- `page_init` ends without a panic where `freemem`, rounded up to a page, lies in the memory of the
-- kernel, and sets up the pages with those below it taken.
pub page_init_lem :
    (s : Boot)
    → ulim ≤ round s.freemem page_size
    → ppn (round s.freemem page_size - ulim) ≤ s.mem.npage
    → Ends
        (λ _ t.
          SetUp (ppn (round s.freemem page_size - ulim)) t.mem
          × (t.pages ≡ s.pages)
          × (t.mem.npage ≡ s.mem.npage))
        (λ e t. ⊥)
        (page_init s)
unfolding page_init paddr
page_init_lem s h k =
    rw
      (
        paddr_lem (round s.freemem page_size)
            (record s {
              freemem = round s.freemem page_size;
              mem = record s.mem { page_free_list = [] };
            })
            h,
        and_then,
      )
      (
        loops-SetUp_by used _ (record s.mem { page_free_list = [] }) refl k
            (ap (λ c. c - used) sizes),
        refl,
        page_count used _ (record s.mem { page_free_list = [] }),
      )
  where
    used : ℕ
    used = ppn (round s.freemem page_size - ulim)

    sizes : (mark_used used 0 (record s.mem { page_free_list = [] })).npage ≡ s.mem.npage
    sizes = (mark_used-keeps used 0 (record s.mem { page_free_list = [] })).1

-- The state after the page array is placed at the first page boundary behind the kernel.
abbrev placed : ℕ → Boot → Boot
placed end s = record s {
  freemem = (round end page_size + s.mem.npage * 12 % 2 ^ 32) % 2 ^ 32;
  ram = memset (round end page_size) 0 (s.mem.npage * 12 % 2 ^ 32) s.ram;
  pages = round end page_size;
}

mips_vm_init_lem :
    (end : ℕ) (s : Boot)
    → s.freemem ≡ 0
    → ulim ≤ (round end page_size + s.mem.npage * 12 % 2 ^ 32) % 2 ^ 32
    → (round end page_size + s.mem.npage * 12 % 2 ^ 32) % 2 ^ 32 - ulim < s.memsize
    → mips_vm_init end s ≡ ok tt (placed end s)
unfolding mips_vm_init alloc
mips_vm_init_lem end s z h k = rw (z, le→not_ltb _ ulim h, and_then, lt→ltb _ s.memsize k) refl

weaken :
    {S A : Type 0} {P Q : A → S → Type 0} (r : Run S A)
    → Ends P (λ e t. ⊥) r
    → ((a : A) (s : S) → P a s → Q a s)
    → Ends Q (λ e t. ⊥) r
weaken (ok a s) h k = k a s h
weaken (fail e s) h k = h
weaken panic h k = h

-- With `ram` bytes of memory, a whole number of pages and less than 2^29, that hold the kernel and the
-- page array, the set-up of the memory ends without a panic: the pages below some number are taken,
-- which cover the kernel and the array, and the free list holds exactly the other pages, unused and
-- once each.
pub init_memory_lem :
    (end ram : ℕ) (s : Boot)
    → s.freemem ≡ 0
    → ulim ≤ end
    → ram < 2 ^ 29
    → ram % page_size ≡ 0
    → end + page_size + ram / page_size * 12 < ulim + ram
    → Ends
        (λ _ t.
          (used : ℕ) × SetUp used t.mem
          × (t.pages + ram / page_size * 12 ≤ ulim + used * page_size)
          × (end ≤ t.pages)
          × (t.mem.npage ≡ ram / page_size))
        (λ e t. ⊥)
        (init_memory end ram s)
unfolding init_memory mips_detect_memory mips_vm_init alloc paddr ppn
init_memory_lem end ram s z low small whole fits =
    rw
      (
        mips_vm_init_lem end detected z (rw top (omega (arith, above)))
            (rw top (omega (arith, above))),
        and_then,
      )
      (weaken (page_init (placed end detected))
        (page_init_lem (placed end detected) (rw top (omega (arith, above)))
          (rw top (omega (arith, above))))
        fitting)
  where
    detected : Boot
    detected = record s { memsize = ram; mem = record s.mem { npage = ram / page_size } }

    above : (end ≤ round end page_size) × (round end page_size < end + page_size)
    above = (omega (arith, fits, small), omega arith)

    top :
        (round end page_size + ram / page_size * 12 % 2 ^ 32) % 2 ^ 32
        ≡ round end page_size + ram / page_size * 12
    top = omega (arith, above)

    used : ℕ
    used =
        ppn
          (round ((round end page_size + ram / page_size * 12 % 2 ^ 32) % 2 ^ 32) page_size - ulim)

    fitting :
        (a : Unit {0}) (t : Boot)
        → SetUp used t.mem × (t.pages ≡ round end page_size) × (t.mem.npage ≡ ram / page_size)
        → (n : ℕ) × SetUp n t.mem
          × (t.pages + ram / page_size * 12 ≤ ulim + n * page_size)
          × (end ≤ t.pages)
          × (t.mem.npage ≡ ram / page_size)
    fitting a t h = (used, h.0, rw (h.1, top) (omega (arith, above)), rw (h.1) (above.0), h.2)
