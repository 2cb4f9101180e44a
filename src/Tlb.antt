-- ===== src/Tlb.antt =====
-- kern/tlbex.c: the refill of the TLB, which maps pages on demand, and the entry of the user's
-- handler of a TLB Mod exception.
mod Refill
mod Tests
use buaa_os_25spring.Prelude.{
  ℕ, zero, suc, ◌+◌, ◌-◌, ◌*◌, ◌/◌, ◌%◌, ◌^◌, Bool, true, false, ◌&&◌, ◌||◌, Option, none, some,
  ltb, leb, ◌==◌, if◌then◌else◌,
}
use buaa_os_25spring.Exec.{Run, ok, fail, panic, pure, get, modify, halt, assert, ◌>>=◌, ◌>>◌}
use buaa_os_25spring.Mmu.{page_size, pte_d, utemp, ustacktop, uenvs, upages, uvpt, ulim}
use buaa_os_25spring.Pmap.{
  Pmem, MemCmd, PtePtr, page_alloc, page_insert, page_lookup, tlb_invalidate,
}
use buaa_os_25spring.Env.State.{Trapframe}

-- `panic_on(c)`.
unfoldable pub sure : {A : Type 0} → MemCmd A → MemCmd A
sure {A = A} c m = go (c m)
  where
    go : Run Pmem A → Run Pmem A
    go (ok a t) = ok a t
    go (fail e t) = panic
    go panic = panic

-- The five checks of `passive_alloc` pass.
abbrev pub may_alloc : ℕ → Bool
may_alloc va =
    leb utemp va
    && (ltb va ustacktop || leb (ustacktop + page_size) va)
    && (ltb va uenvs || leb upages va)
    && (ltb va upages || leb uvpt va)
    && ltb va ulim

unfoldable pub passive_alloc : ℕ → ℕ → ℕ → MemCmd (Unit {0})
unfolding sure
passive_alloc va pgdir asid = do
  assert (may_alloc va)
  p ← sure page_alloc
  sure (
      page_insert pgdir asid p (va / page_size * page_size)
        (if leb uvpt va && ltb va ulim then 0 else pte_d))

-- The loop of `_do_tlb_refill`, `none` when it has not ended after `fuel` calls of `page_lookup`.
unfoldable pub refill_loop : ℕ → ℕ → ℕ → ℕ → MemCmd (Option PtePtr)
refill_loop zero va pgdir asid = pure none
refill_loop (suc fuel) va pgdir asid = do
  found ← page_lookup pgdir va
  elim found [
    | none ↦ do passive_alloc va pgdir asid; refill_loop fuel va pgdir asid
    | some (pp, p) ↦ pure (some p)
  ]

-- The pair of entries around `p`, as EntryLo0 and EntryLo1.
abbrev pub entry_pair : PtePtr → Pmem → ℕ × ℕ
entry_pair (t, i) m = (m.frame t (i / 2 * 2) / 2 ^ 6, m.frame t (i / 2 * 2 + 1) / 2 ^ 6)

-- `pgdir` is `cur_pgdir`; `pentrylo` is the result.
unfoldable pub do_tlb_refill : ℕ → ℕ → ℕ → ℕ → MemCmd (Option (ℕ × ℕ))
unfolding tlb_invalidate
do_tlb_refill fuel pgdir va asid = do
  tlb_invalidate asid va
  found ← refill_loop fuel va pgdir asid
  m ← get
  pure (elim found [ none ↦ none | some p ↦ some (entry_pair p m) ])

-- `sizeof(struct Trapframe)`: 38 registers.
abbrev pub sizeof_trapframe : ℕ
sizeof_trapframe = 152

-- `tf->regs[i] = v`
abbrev pub set_reg : ℕ → ℕ → Trapframe → Trapframe
set_reg i v tf = record tf { regs = λ j. if j == i then v else tf.regs j }

-- Where the interrupted context is saved: on the exception stack of the user, below what it holds.
abbrev pub save_at : Trapframe → ℕ
save_at tf =
    (if ltb (tf.regs 29) ustacktop || leb uenvs (tf.regs 29) then uenvs else tf.regs 29)
    - sizeof_trapframe

-- Yields the new context, and the address at which the old one is stored. `cur_pgdir` and the
-- environment's `env_user_tlb_mod_entry` are arguments; UXSTACKTOP is UENVS.
unfoldable pub do_tlb_mod : ℕ → ℕ → Trapframe → MemCmd (Trapframe × ℕ)
do_tlb_mod pgdir handler tf = do
  _ ← page_lookup pgdir tf.cp0_badvaddr
  assert (ltb 0 handler)
  pure (
    record (set_reg 29 (save_at tf - 4) (set_reg 4 (save_at tf) tf)) { cp0_epc = handler },
    save_at tf,
  )
