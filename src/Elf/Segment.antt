-- ===== src/Elf/Segment.antt =====
-- What a segment of an executable looks like after `elf_load_seg`, where `map_page` gives a page fresh
-- memory or returns -E_NO_MEM, as `load_icode_mapper` and `spawn_mapper` do.
use buaa_os_25spring.Prelude.{
  ℕ, ◌+◌, ◌-◌, ◌/◌, ◌%◌, ◌≤◌, ◌<◌, ◌≡◌, ◌⊎◌, inl, inr, ap, min, true, some, leb, arith, ==_self,
  ==_ne, lt→ltb, ℕ_discrete,
}
use buaa_os_25spring.Exec.{ok, Cmd}
use buaa_os_25spring.Exec.Ends.{Ends, bind}
use buaa_os_25spring.Mmu.{page_size}
use buaa_os_25spring.Elf.{File, Piece, load_first}
use buaa_os_25spring.Elf.Loops.{Bytes, fresh_byte, Mapped, OutOfMemory, IsMapper, content, Loaded}

-- The first, partial page is full of the file's bytes.
module _ (bin : File) (va perm filesz : ℕ) where
  abbrev first_piece : Piece
  first_piece = record {
    va = va;
    offset = va % page_size;
    perm = perm;
    src = some 0;
    len = min filesz (page_size - va % page_size);
  }

  first_byte :
      (k : ℕ)
      → k < page_size - va % page_size
      → page_size - va % page_size ≤ filesz
      → fresh_byte bin first_piece (va + k) ≡ content bin filesz k
  first_byte k h f =
      rw
        (
          within,
          lt→ltb k filesz (omega arith),
          le→leb (va % page_size) (va % page_size + k) (omega arith),
          lt→ltb (va % page_size + k) (va % page_size + min filesz (page_size - va % page_size))
              (omega arith),
        )
        (ap bin (omega arith))
    where
      within : (va + k) % page_size ≡ va % page_size + k
      within = omega arith

      le→leb : (a b : ℕ) → a ≤ b → leb a b ≡ true
      le→leb a b i = ground arith

  first_Loaded :
      (old new : Bytes)
      → page_size - va % page_size ≤ filesz
      → Mapped bin first_piece old new
      → Loaded bin va filesz (page_size - va % page_size) new
  first_Loaded old new f mapped k h =
      rw (mapped (va + k), same, ==_self (va / page_size)) (ap some (first_byte k h f))
    where
      same : (va + k) / page_size ≡ va / page_size
      same = omega arith

  module _ {S : Type 0} (view : S → Bytes) (Good : S → Type 0) (map_page : Piece → Cmd S (Unit {0}))
      (mapper : IsMapper view Good bin map_page) where
    -- What the first page leaves: the bytes below `i`, which ends a page.
    pub record FirstLoaded (i : ℕ) (t : S) : Type 0 where
      pub good : Good t
      pub near : i < filesz + page_size
      pub aligned : (va + i) % page_size ≡ 0
      pub loaded : Loaded bin va filesz i (view t)

    no_first :
        (s : S)
        → Good s
        → va % page_size ≡ 0
        → Ends FirstLoaded OutOfMemory (load_first map_page va (va % page_size) perm filesz s)
    no_first s g z = rw z (record {
      good = g;
      near = omega arith;
      aligned = omega (arith, z);
      loaded = λ k h. absurd (omega (arith, h));
    })

    pub load_first_lem :
        (s : S)
        → Good s
        → (va % page_size ≡ 0) ⊎ (page_size ≤ filesz + va % page_size)
        → Ends FirstLoaded OutOfMemory (load_first map_page va (va % page_size) perm filesz s)
    load_first_lem s g (inl z) = no_first s g z
    load_first_lem s g (inr f) = elim (ℕ_discrete (va % page_size) 0) [
      | yes z ↦ no_first s g z
      | no z ↦ rw (==_ne (va % page_size) 0 z) (
          bind (λ _ t. Good t × Mapped bin first_piece (view s) (view t)) FirstLoaded OutOfMemory
            (map_page first_piece s) (λ _ t. ok (min filesz (page_size - va % page_size)) t)
            (mapper.maps first_piece s g)
            (λ _ t m. record {
              good = m.0;
              near = omega arith;
              aligned = omega arith;
              loaded = λ k h. first_Loaded (view s) (view t) (omega arith) m.1 k (omega (arith, h));
            }))
    ]
