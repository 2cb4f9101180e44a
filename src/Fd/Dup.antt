-- ===== src/Fd/Dup.antt =====
-- user/lib/fd.c: dup, which maps the pages of a descriptor and of its data a second time.
use buaa_os_25spring.Prelude.{
  ℕ, zero, suc, ◌+◌, ◌-◌, ◌/◌, true, not, ◌&&◌, Option, none, some, ◌==◌, if◌then◌else◌,
}
use buaa_os_25spring.Exec.{Run, ok, fail, panic, pure, throw, get, ◌>>=◌, ◌>>◌, e_inval, e_no_mem}
use buaa_os_25spring.Fd.{Space, FdCmd, index2fd, fd2data, fd_lookup, mem_unmap}
use buaa_os_25spring.Fd.Io.{Devices, close, ignore}

-- `syscall_mem_map(0, srcva, 0, dstva, perm)` within the process: it fails with E_NO_MEM when a page
-- table is needed and cannot be made.
abbrev pub map_at : ℕ → ℕ × ℕ → Space → Space
map_at va entry s = record s {
  vpt = λ v. if v == va then some entry else s.vpt v;
  vpd = λ d. if d == va / 1024 then true else s.vpd d;
  room = if s.vpd (va / 1024) then s.room else s.room - 1;
}

abbrev pub map_entry : Option (ℕ × ℕ) → ℕ → FdCmd (Unit {0})
map_entry none va s = fail e_inval s
map_entry (some entry) va s =
    if not (s.vpd (va / 1024)) && s.room == 0 then fail e_no_mem s else ok tt (map_at va entry s)

unfoldable pub mem_map : ℕ → ℕ → FdCmd (Unit {0})
mem_map src dst s = map_entry (s.vpt src) dst s

-- The loop over the data pages with `n` of them left, at the `i`-th.
abbrev pub copy_entry : Option (ℕ × ℕ) → ℕ → ℕ → FdCmd (Unit {0})
copy_entry none src dst s = ok tt s
copy_entry (some entry) src dst s = mem_map src dst s

unfoldable pub copy_pages : ℕ → ℕ → ℕ → FdCmd (Unit {0})
unfolding mem_map
copy_pages zero ova nva = pure tt
copy_pages (suc n) ova nva = do
  s ← get
  copy_entry (s.vpt ova) ova nva
  copy_pages n (ova + 1) (nva + 1)

unfoldable pub unmap_pages : ℕ → ℕ → FdCmd (Unit {0})
unmap_pages zero va = pure tt
unmap_pages (suc n) va = do mem_unmap va; unmap_pages n (va + 1)

-- When a mapping fails, all of them are undone.
abbrev pub or_undo : ℕ → ℕ → ℕ → Run Space (Unit {0}) → Run Space ℕ
or_undo newfdnum newfd nva (ok a s) = ok newfdnum s
or_undo newfdnum newfd nva (fail e s) = (do mem_unmap newfd; unmap_pages 1024 nva; throw e) s
or_undo newfdnum newfd nva panic = panic

-- Steps 3 to 5, once the new descriptor is closed.
unfoldable pub share_pages : ℕ → ℕ → FdCmd (Unit {0})
share_pages oldfd newfd = do
  s ← get
  if s.vpd (fd2data oldfd / 1024) then copy_pages 1024 (fd2data oldfd) (fd2data newfd) else pure tt
  mem_map oldfd newfd

unfoldable pub dup : Devices → ℕ → ℕ → FdCmd ℕ
dup dev oldfdnum newfdnum = do
  oldfd ← fd_lookup oldfdnum
  λ s. ignore (close dev newfdnum s)
  λ s.
      or_undo newfdnum (index2fd newfdnum) (fd2data (index2fd newfdnum))
        (share_pages oldfd (index2fd newfdnum) s)
