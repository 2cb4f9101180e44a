-- ===== src/Fd/Shared.antt =====
-- user/lib/fd.c: descriptors that `dup` made share their offset.
use buaa_os_25spring.Prelude.{
  ℕ, zero, suc, ◌+◌, ◌/◌, ◌<◌, ◌≤◌, ◌≡◌, ◌≢◌, inl, inr, refl, sym, ◌∙◌, arith, Bool, true, false,
  not, ◌&&◌, Option, none, some, ◌==◌, if◌then◌else◌, Bool-cases, ==_self,
}
use mathlib.Core.Path.{subst}
use mathlib.Core.Bool.{true≢false}
use buaa_os_25spring.Exec.{Error, Run, ok, fail, panic, pure, e_no_mem}
use buaa_os_25spring.Exec.Ends.{Ends, bind}
use buaa_os_25spring.Fd.{
  Space, is_some, set_offset, fd_at, page_in, index2fd, index2data, fd2data, is_mapped,
}
use buaa_os_25spring.Fd.Dup.{map_at, map_entry, mem_map, copy_entry, copy_pages, share_pages}

-- A mapping is new, and what is below it stays as it was.
abbrev Below : ℕ → Space → Space → Type 0
Below dst s t = ((w : ℕ) → w < dst → t.vpt w ≡ s.vpt w) × (t.fds ≡ s.fds)

abbrev pub NoMemory : Error → Space → Type 0
NoMemory e t = e ≡ e_no_mem

map_entry_lem :
    (entry : ℕ × ℕ) (dst : ℕ) (s : Space)
    → Ends (λ _ t. t ≡ map_at dst entry s) NoMemory (map_entry (some entry) dst s)
map_entry_lem entry dst s = elim (Bool-cases (not (s.vpd (dst / 1024)) && s.room == 0)) [
  | inl e ↦ rw e refl
  | inr e ↦ rw e refl
]

map_at-Below : (dst : ℕ) (entry : ℕ × ℕ) (s t : Space) → t ≡ map_at dst entry s → Below dst s t
map_at-Below dst entry s t e = rw e (λ w h. ground arith, refl)

mem_map_lem :
    (src dst : ℕ) (entry : ℕ × ℕ) (s : Space)
    → s.vpt src ≡ some entry
    → Ends (λ _ t. t ≡ map_at dst entry s) NoMemory (mem_map src dst s)
unfolding mem_map
mem_map_lem src dst entry s e =
    subst (λ o. Ends (λ _ t. t ≡ map_at dst entry s) NoMemory (map_entry o dst s)) (sym e)
      (map_entry_lem entry dst s)

weaken :
    {P Q : Space → Type 0} (r : Run Space (Unit {0}))
    → Ends (λ _. P) NoMemory r
    → ((t : Space) → P t → Q t)
    → Ends (λ _. Q) NoMemory r
weaken (ok a t) h k = k t h
weaken (fail e t) h k = h
weaken panic h k = h

copy_entry-Below :
    (src dst : ℕ) (s : Space) (o : Option (ℕ × ℕ))
    → s.vpt src ≡ o
    → Ends (λ _. Below dst s) NoMemory (copy_entry o src dst s)
copy_entry-Below src dst s none e = (λ w h. refl, refl)
copy_entry-Below src dst s (some entry) e =
    weaken (mem_map src dst s) (mem_map_lem src dst entry s e) (map_at-Below dst entry s)

copy_pages-Below :
    (n src dst : ℕ) (s : Space) → Ends (λ _. Below dst s) NoMemory (copy_pages n src dst s)
unfolding copy_pages
copy_pages-Below zero src dst s = (λ w h. refl, refl)
copy_pages-Below (suc n) src dst s =
    bind (λ _. Below dst s) (λ _. Below dst s) NoMemory (copy_entry (s.vpt src) src dst s)
      (λ _. copy_pages n (src + 1) (dst + 1)) (copy_entry-Below src dst s (s.vpt src) refl)
      (λ _ t (same, fds).
        weaken (copy_pages n (src + 1) (dst + 1) t) (copy_pages-Below n (src + 1) (dst + 1) t)
          (λ u (same', fds'). (λ w h. same' w (omega arith) ∙ same w h, fds' ∙ fds)))

-- What is shared by two descriptors: the `struct Fd`, so that a store through one is read through the
-- other.
abbrev pub Shares : ℕ → ℕ → Space → Space → Type 0
Shares oldfd newfd s t =
    (t.vpt newfd ≡ s.vpt oldfd)
    × ((w : ℕ) → w < index2data 0 → w ≢ newfd → t.vpt w ≡ s.vpt w)
    × (t.fds ≡ s.fds)
    × ((v : ℕ) → (fd_at newfd (set_offset oldfd v t)).fd_offset ≡ v)

first_pages :
    (n src dst : ℕ) (c : Bool) (s : Space)
    → index2data 0 ≤ dst
    → Ends (λ _. Below (index2data 0) s) NoMemory ((if c then copy_pages n src dst else pure tt) s)
first_pages n src dst true s h =
    weaken (copy_pages n src dst s) (copy_pages-Below n src dst s)
      (λ t (same, fds). (λ w lt. same w (omega (arith, h)), fds))
first_pages n src dst false s h = (λ w lt. refl, refl)

-- Two descriptors with the same page.
same_page :
    (old new v : ℕ) (t : Space)
    → t.vpt new ≡ t.vpt old
    → (fd_at new (set_offset old v t)).fd_offset ≡ v
same_page old new v t e = rw (e, ==_self (page_in (t.vpt old))) refl

mapped_last :
    (old new : ℕ) (entry : ℕ × ℕ) (s u t : Space)
    → old < index2data 0
    → s.vpt old ≡ some entry
    → Below (index2data 0) s u
    → t ≡ map_at new entry u
    → Shares old new s t
mapped_last old new entry s u t lt e (same, fds) at = (
  rw (at, e, ==_self new) refl,
  λ w h ne. rw at ground (arith, same w h),
  rw at fds,
  λ v. same_page old new v t (rw (at, ==_self new) old_page),
)
  where
    old_page : some entry ≡ (if old == new then some entry else u.vpt old)
    old_page = elim (Bool-cases (old == new)) [
      | inl q ↦ rw q refl
      | inr q ↦ rw q (sym (same old lt ∙ e))
    ]

some_entry : (o : Option (ℕ × ℕ)) → is_some o ≡ true → (entry : ℕ × ℕ) × (o ≡ some entry)
some_entry none h = absurd (true≢false (sym h))
some_entry (some entry) h = (entry, refl)

-- Once the new descriptor is closed, `dup` maps the old one's page at it, or fails with E_NO_MEM: it
-- never panics. If it succeeds, no other descriptor's page is mapped differently, no `struct Fd` has
-- changed, and an offset that is set through the old descriptor is the offset of the new one.
pub share_pages_lem :
    (old new : ℕ) (s : Space)
    → old < 32
    → new < 32
    → is_mapped (index2fd old) s ≡ true
    → Ends
        (λ _. Shares (index2fd old) (index2fd new) s)
        NoMemory
        (share_pages (index2fd old) (index2fd new) s)
unfolding share_pages
share_pages_lem old new s small small' mapped =
    let (entry, e) = some_entry (s.vpt (index2fd old)) mapped in
    bind (λ _. Below (index2data 0) s) (λ _. Shares (index2fd old) (index2fd new) s) NoMemory
      ((if s.vpd (fd2data (index2fd old) / 1024)
          then copy_pages 1024 (fd2data (index2fd old)) (fd2data (index2fd new))
          else pure tt)
        s)
      (λ _. mem_map (index2fd old) (index2fd new))
      (first_pages 1024 (fd2data (index2fd old)) (fd2data (index2fd new))
        (s.vpd (fd2data (index2fd old) / 1024)) s (omega arith))
      (λ _ u below.
        weaken (mem_map (index2fd old) (index2fd new) u)
          (mem_map_lem (index2fd old) (index2fd new) entry u
            (below.0 (index2fd old) (omega arith) ∙ e))
          (λ t at. mapped_last (index2fd old) (index2fd new) entry s u t (omega arith) e below at))
