-- ===== src/Boot/Loops.antt =====
-- The two loops of `page_init`, which mark the pages below a number as used and free the others.
use buaa_os_25spring.Prelude.{
  ℕ, zero, suc, ◌+◌, ◌-◌, ◌≤◌, ◌<◌, ◌≡◌, refl, ◌∙◌, false, ◌||◌, ltb, leb, ◌&&◌, if◌then◌else◌,
  List, [], ◌∷◌, has, Distinct, arith, ==_ne,
}
use buaa_os_25spring.Pmap.{Pmem, update}
use buaa_os_25spring.Pmap.Space.{IsFreeList}
use buaa_os_25spring.Boot.{mark_used, mark_free}

-- The pages below `used` are in use by the kernel, once each, and the free list holds exactly the
-- others, unused and once each.
pub record SetUp (used : ℕ) (m : Pmem) : Type 0 where
  pub free : IsFreeList m
  pub taken : (p : ℕ) → p < used → m.pp_ref p ≡ 1
  pub exactly : (p : ℕ) → has p m.page_free_list ≡ (leb used p && ltb p m.npage)

-- The numbers from `i` to `i + n - 1`, the last one first, before others.
abbrev pub down : ℕ → ℕ → List ℕ → List ℕ
down zero i l = l
down (suc n) i l = down n (i + 1) (i ∷ l)

has-down : (n i p : ℕ) (l : List ℕ) → has p (down n i l) ≡ ((leb i p && ltb p (i + n)) || has p l)
has-down zero i p l = ground arith
has-down (suc n) i p l = ground (arith, has-down n (i + 1) p (i ∷ l))

Distinct-down :
    (n i : ℕ) (l : List ℕ)
    → Distinct l
    → ((p : ℕ) → i ≤ p → has p l ≡ false)
    → Distinct (down n i l)
Distinct-down zero i l d k = d
Distinct-down (suc n) i l d k =
    Distinct-down n (i + 1) (i ∷ l) (k i (omega arith), d)
      (λ p h. ground (arith, k p (omega arith), ==_ne p i (λ e. absurd (omega arith))))

mark_used-refs :
    (n i p : ℕ) (m : Pmem)
    → (mark_used n i m).pp_ref p ≡ (if leb i p && ltb p (i + n) then 1 else m.pp_ref p)
unfolding mark_used
mark_used-refs zero i p m = ground arith
mark_used-refs (suc n) i p m =
    ground (arith, mark_used-refs n (i + 1) p (record m { pp_ref = update m.pp_ref i 1 }))

pub mark_used-keeps :
    (n i : ℕ) (m : Pmem)
    → ((mark_used n i m).page_free_list ≡ m.page_free_list) × ((mark_used n i m).npage ≡ m.npage)
unfolding mark_used
mark_used-keeps zero i m = (refl, refl)
mark_used-keeps (suc n) i m = mark_used-keeps n (i + 1) (record m { pp_ref = update m.pp_ref i 1 })

abbrev freed : ℕ → Pmem → Pmem
freed i m = record m { pp_ref = update m.pp_ref i 0; page_free_list = i ∷ m.page_free_list }

mark_free-refs :
    (n i p : ℕ) (m : Pmem)
    → (mark_free n i m).pp_ref p ≡ (if leb i p && ltb p (i + n) then 0 else m.pp_ref p)
unfolding mark_free
mark_free-refs zero i p m = ground arith
mark_free-refs (suc n) i p m = ground (arith, mark_free-refs n (i + 1) p (freed i m))

pub mark_free-list :
    (n i : ℕ) (m : Pmem)
    → ((mark_free n i m).page_free_list ≡ down n i m.page_free_list)
      × ((mark_free n i m).npage ≡ m.npage)
unfolding mark_free
mark_free-list zero i m = (refl, refl)
mark_free-list (suc n) i m = mark_free-list n (i + 1) (freed i m)

-- The two loops of `page_init` one after the other.
pub loops-SetUp :
    (used : ℕ) (m : Pmem)
    → m.page_free_list ≡ []
    → used ≤ m.npage
    → SetUp used (mark_free (m.npage - used) used (mark_used used 0 m))
loops-SetUp used m e h = record {
  free = record {
    below = λ p i. ground (arith, exactly p, i, sizes);
    unused = λ p i. ground (arith, exactly p, i, sizes, refs p);
    distinct =
        rw (lists.0, (mark_used-keeps used 0 m).0, e)
          (Distinct-down (m.npage - used) used [] tt (λ p i. refl));
  };
  taken = λ p i. ground (arith, refs p, mark_used-refs used 0 p m, i);
  exactly = exactly;
}
  where
    lists :
        ((mark_free (m.npage - used) used (mark_used used 0 m)).page_free_list
          ≡ down (m.npage - used) used (mark_used used 0 m).page_free_list)
        × ((mark_free (m.npage - used) used (mark_used used 0 m)).npage
            ≡ (mark_used used 0 m).npage)
    lists = mark_free-list (m.npage - used) used (mark_used used 0 m)

    sizes : (mark_free (m.npage - used) used (mark_used used 0 m)).npage ≡ m.npage
    sizes = lists.1 ∙ (mark_used-keeps used 0 m).1

    refs :
        (p : ℕ)
        → (mark_free (m.npage - used) used (mark_used used 0 m)).pp_ref p ≡ (
            if leb used p && ltb p (used + (m.npage - used))
            then 0
            else (mark_used used 0 m).pp_ref p)
    refs p = mark_free-refs (m.npage - used) used p (mark_used used 0 m)

    exactly :
        (p : ℕ)
        → has p (mark_free (m.npage - used) used (mark_used used 0 m)).page_free_list
          ≡ (leb used p && ltb p (mark_free (m.npage - used) used (mark_used used 0 m)).npage)
    exactly p =
        rw (sizes, lists.0, (mark_used-keeps used 0 m).0, e)
          (ground (arith, has-down (m.npage - used) used p []))
