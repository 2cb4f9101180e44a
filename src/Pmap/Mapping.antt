-- ===== src/Pmap/Mapping.antt =====
-- The write of an entry that maps a page: what the directory says then, and that it stays
-- well-formed, with the count of the page one higher.
use buaa_os_25spring.Prelude.{
  ℕ, ◌+◌, ◌-◌, ◌^◌, ◌%◌, ◌<◌, ◌≡◌, ◌∙◌, true, false, ◌&&◌, some, arith, ◌==◌, if◌then◌else◌, has,
}
use buaa_os_25spring.Mmu.{pdx, ptx, ppn, is_valid, entry, is_valid-entry, ppn-entry, ptx-lt}
use buaa_os_25spring.Pmap.{Pmem, update, update_word}
use buaa_os_25spring.Pmap.Space.{
  IsGood, IsSpace, IsData, pde, pte, table, translate, user_tables, dir_refs, ref_of,
}
use buaa_os_25spring.Pmap.Change.{
  slot-change, dir_refs-change, written-same, written-entry, IsSpace-written,
}

-- What maps `va` to `pp`: the write to its slot, and the count.
abbrev pub with_entry : Pmem → ℕ → ℕ → ℕ → Pmem
with_entry m pgdir va e = record m {
  frame = update_word m.frame (table m.frame pgdir (pdx va)) (ptx va) e;
}

abbrev pub counted_up : Pmem → ℕ → Pmem
counted_up m pp = record m { pp_ref = update m.pp_ref pp ((m.pp_ref pp + 1) % 2 ^ 16) }

abbrev pub mapped : Pmem → ℕ → ℕ → ℕ → ℕ → Pmem
mapped m pgdir va pp perm = counted_up (with_entry m pgdir va (entry pp perm)) pp

module _ (ext : ℕ → ℕ) (pgdir va : ℕ) (m : Pmem) (pp perm : ℕ) (good : IsGood ext pgdir m)
    (user : pdx va < user_tables) (small : perm < 2 ^ 12)
    (data_page : IsData m.npage m.frame pgdir pp)
    (d : is_valid (pde m.frame pgdir (pdx va)) ≡ true) where
  abbrev after : ℕ → ℕ → ℕ
  after = (with_entry m pgdir va (entry pp perm)).frame

  pub translate-with_entry :
      (vb : ℕ)
      → pdx vb < user_tables
      → translate after pgdir vb ≡ (
          if pdx vb == pdx va && ptx vb == ptx va
          then some (entry pp perm)
          else translate m.frame pgdir vb)
  translate-with_entry vb hb =
      slot-change m.frame after pgdir (pdx va) (ptx va) (entry pp perm) user (ptx-lt va) d
        (written-same m.npage m.frame pgdir (pdx va) (ptx va) _ good.space user d)
        (written-entry m.npage m.frame pgdir (pdx va) (ptx va) _ good.space user d) (pdx vb)
        (ptx vb) hb
      ∙ rw (is_valid-entry pp perm)

  pub with_entry-IsSpace : IsSpace m.npage after pgdir
  with_entry-IsSpace =
      IsSpace-written m.npage m.frame pgdir (pdx va) (ptx va) (entry pp perm) good.space user d
        (λ _. rw (ppn-entry pp perm small) data_page)

  refs_change :
      (p : ℕ)
      → dir_refs after pgdir p + ref_of p (pte m.frame pgdir (pdx va) (ptx va))
        ≡ dir_refs m.frame pgdir p + (if pp == p then 1 else 0)
  refs_change p =
      dir_refs-change m.frame after pgdir (pdx va) (ptx va) (entry pp perm) user (ptx-lt va) d
        (written-same m.npage m.frame pgdir (pdx va) (ptx va) _ good.space user d)
        (written-entry m.npage m.frame pgdir (pdx va) (ptx va) _ good.space user d) p
      ∙ rw (is_valid-entry pp perm, ppn-entry pp perm small)

  -- The slot was empty: one reference more.
  pub mapped-IsGood :
      is_valid (pte m.frame pgdir (pdx va) (ptx va)) ≡ false
      → has pp m.page_free_list ≡ false
      → m.pp_ref pp < 2 ^ 16 - 1
      → IsGood ext pgdir (mapped m pgdir va pp perm)
  mapped-IsGood empty taken room = record {
    free = record {
      below = good.free.below;
      unused = λ p h. ground (arith, good.free.unused p h, taken);
      distinct = good.free.distinct;
    };
    space = with_entry-IsSpace;
    refs = λ p. ground (arith, good.refs p, refs_change p, empty);
    held = good.held;
  }

  -- The slot held the same page: only the permissions change.
  pub remapped-IsGood :
      is_valid (pte m.frame pgdir (pdx va) (ptx va)) ≡ true
      → ppn (pte m.frame pgdir (pdx va) (ptx va)) ≡ pp
      → IsGood ext pgdir (with_entry m pgdir va (entry pp perm))
  remapped-IsGood v e = record {
    free = record {
      below = good.free.below;
      unused = good.free.unused;
      distinct = good.free.distinct;
    };
    space = with_entry-IsSpace;
    refs = λ p. ground (arith, good.refs p, refs_change p, v, e);
    held = good.held;
  }
