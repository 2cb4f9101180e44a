-- ===== src/Fd.antt =====
-- user/lib/fd.c: the table of file descriptors of a process. A `struct Fd *` is the number of its
-- virtual page. Descriptor numbers are those that are not negative.
pub mod Io
pub mod Dup
pub mod Table
pub mod Stream
pub mod Shared
mod Tests
use buaa_os_25spring.Prelude.{
  ℕ, zero, suc, ◌+◌, ◌-◌, ◌*◌, ◌/◌, ◌%◌, ◌^◌, Bool, true, false, not, ◌&&◌, Option, none, some, leb,
  ltb, ◌==◌, if◌then◌else◌,
}
use buaa_os_25spring.Exec.{
  Run, ok, fail, panic, Cmd, pure, throw, get, modify, ◌>>=◌, ◌>>◌, e_inval, e_max_open,
}

pub record Fd : Type 0 where
  pub fd_dev_id : ℕ
  pub fd_offset : ℕ
  pub fd_omode : ℕ

-- The address space of the process: `vpd` tells which page tables there are, `vpt` gives the page and
-- the bits PTE_D and PTE_LIBRARY of each virtual page that is mapped, and `room` is how many page
-- tables the kernel can still make. `fds` is what each page holds as a `struct Fd`.
pub record Space : Type 0 where
  pub vpd : ℕ → Bool
  pub vpt : ℕ → Option (ℕ × ℕ)
  pub room : ℕ
  pub fds : ℕ → Fd

abbrev pub FdCmd : Type 0 → Type 0
FdCmd = Cmd Space

abbrev pub maxfd : ℕ
maxfd = 32

-- `INDEX2FD(i)` and `INDEX2DATA(i)`, as numbers of pages.
abbrev pub index2fd : ℕ → ℕ
index2fd i = 0x5fc00 + i

abbrev pub index2data : ℕ → ℕ
index2data i = 0x60000 + i * 1024

abbrev pub is_some : {A : Type 0} → Option A → Bool
is_some none = false
is_some (some a) = true

abbrev pub is_mapped : ℕ → Space → Bool
is_mapped va s = is_some (s.vpt va)

-- The page at a virtual page that is mapped.
abbrev pub page_in : Option (ℕ × ℕ) → ℕ
page_in none = 0
page_in (some (page, perm)) = page

-- `*fd`, and a store to `fd->fd_offset`.
abbrev pub fd_at : ℕ → Space → Fd
fd_at fd s = s.fds (page_in (s.vpt fd))

abbrev pub set_offset : ℕ → ℕ → Space → Space
set_offset fd v s = record s {
  fds = λ p. if p == page_in (s.vpt fd) then record (s.fds p) { fd_offset = v } else s.fds p;
}

-- The three devices of `devtab`.
pub data Dev : Type 0 where
  devfile devcons devpipe : Dev

unfoldable pub dev_lookup : ℕ → FdCmd Dev
dev_lookup id =
    if id == 102
    then pure devfile
    else if id == 99
    then pure devcons
    else if id == 112
    then pure devpipe
    else throw e_inval

-- The loop of `fd_alloc` with `n` rounds left, at `fdno`.
unfoldable pub fd_alloc_from : ℕ → ℕ → FdCmd ℕ
fd_alloc_from zero fdno s = fail e_max_open s
fd_alloc_from (suc n) fdno s =
    let rest = fd_alloc_from n (fdno + 1) s in
    if not (s.vpd (index2fd fdno / 1024))
    then ok (index2fd fdno) s
    else if not (is_mapped (index2fd fdno) s)
    then ok (index2fd fdno) s
    else rest

unfoldable pub fd_alloc : FdCmd ℕ
unfolding fd_alloc_from
fd_alloc = fd_alloc_from (maxfd - 1) 0

unfoldable pub fd_lookup : ℕ → FdCmd ℕ
fd_lookup fdnum s =
    if leb maxfd fdnum
    then fail e_inval s
    else if is_mapped (index2fd fdnum) s
    then ok (index2fd fdnum) s
    else fail e_inval s

abbrev pub fd2num : ℕ → ℕ
fd2num fd = fd - 0x5fc00

abbrev pub fd2data : ℕ → ℕ
fd2data fd = index2data (fd2num fd)

-- `syscall_mem_unmap(0, va)` of a page of the process.
abbrev pub mem_unmap : ℕ → FdCmd (Unit {0})
mem_unmap va s = ok tt (record s { vpt = λ v. if v == va then none else s.vpt v })

unfoldable pub fd_close : ℕ → FdCmd (Unit {0})
fd_close fd = mem_unmap fd

unfoldable pub seek : ℕ → ℕ → FdCmd (Unit {0})
unfolding fd_lookup
seek fdnum offset = do fd ← fd_lookup fdnum; modify (set_offset fd offset)
