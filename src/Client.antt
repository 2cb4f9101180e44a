-- ===== src/Client.antt =====
-- user/lib/file.c and user/lib/fsipc.c: the file device of a process, which asks the file server to
-- open, map, resize and close files. What the server does with a request, and to the caller's address
-- space, is the argument `fsipc`, since it happens in another process.
mod Read
mod Device
mod Tests
use buaa_os_25spring.Prelude.{
  ℕ, zero, suc, ◌+◌, ◌-◌, ◌*◌, ◌/◌, ◌%◌, ◌^◌, ◌⊎◌, inl, inr, Bool, true, false, not, ◌&&◌, ◌||◌,
  List, ltb, leb, ◌==◌, if◌then◌else◌, length, bit_and,
}
use buaa_os_25spring.Exec.{
  Run, ok, fail, panic, Error, Cmd, pure, throw, get, modify, halt, ◌>>=◌, ◌>>◌, e_bad_path,
  e_no_disk, e_inval,
}
use buaa_os_25spring.Fd.{
  Space, FdCmd, Fd, fd_alloc, fd_lookup, fd_at, fd2num, fd2data, is_mapped, page_in, mem_unmap,
}
use buaa_os_25spring.Str.{Mem, memcpy}

-- The part of `struct Filefd` behind its `struct Fd`: the number of the file and the copy of its
-- `struct File`.
pub record Filefd : Type 0 where
  pub f_fileid : ℕ
  pub f_size : ℕ
  pub f_type : ℕ
  pub f_name : List ℕ

-- The address space of the process, what the pages of its descriptors hold as a `struct Filefd`,
-- and the bytes of its memory by their addresses.
pub record Process : Type 0 where
  pub space : Space
  pub filefds : ℕ → Filefd
  pub ram : Mem

abbrev pub PCmd : Type 0 → Type 0
PCmd = Cmd Process

-- The requests, with the fields of their structures in user/include/fsreq.h.
pub data Request : Type 0 where
  open_request : List ℕ → ℕ → Request
  map_request set_size_request dirty_request : ℕ → ℕ → Request
  close_request : ℕ → Request
  sync_request : Request
  create_request : List ℕ → ℕ → Request

abbrev pub lift_run : {A : Type 0} → Process → Run Space A → Run Process A
lift_run s (ok a t) = ok a (record s { space = t })
lift_run s (fail e t) = fail e (record s { space = t })
lift_run s panic = panic

abbrev pub lift : {A : Type 0} → FdCmd A → PCmd A
lift c s = lift_run s (c s.space)

-- `(struct Filefd *)fd`
abbrev pub filefd_at : ℕ → Process → Filefd
filefd_at fd s = s.filefds (page_in (s.space.vpt fd))

abbrev pub set_size_of : ℕ → ℕ → Process → Process
set_size_of fd size s = record s {
  filefds = λ p.
      if p == page_in (s.space.vpt fd) then record (s.filefds p) { f_size = size } else s.filefds p;
}

-- `fd_dev_id != devfile.dev_id`
abbrev pub is_file : ℕ → Process → Bool
is_file fd s = (fd_at fd s.space).fd_dev_id == 102

abbrev pub maxfilesize : ℕ
maxfilesize = 1024 * 4096

-- How many pages of PTMAP bytes `size` bytes take, the rounds of the loops from 0.
abbrev pub pages_of : ℕ → ℕ
pages_of size = (size + 4095) / 4096

-- A call with the pointers `dstva` as the number of a page, and the permissions of the reply.
module _ (fsipc : Request → ℕ → PCmd ℕ) where
  unfoldable pub fsipc_open : List ℕ → ℕ → ℕ → PCmd (Unit {0})
  fsipc_open path omode fd =
      if leb 1024 (length path)
      then throw e_bad_path
      else (do _ ← fsipc (open_request path omode) fd; pure tt)

  unfoldable pub fsipc_create : List ℕ → ℕ → ℕ → PCmd (Unit {0})
  fsipc_create path f_type fd =
      if leb 1024 (length path)
      then throw e_bad_path
      else (do _ ← fsipc (create_request path f_type) fd; pure tt)

  -- `(perm & ~(PTE_D | PTE_LIBRARY)) != PTE_V` is a panic; PTE_LIBRARY is 2.
  unfoldable pub fsipc_map : ℕ → ℕ → ℕ → PCmd (Unit {0})
  fsipc_map fileid offset dstva = do
    perm ← fsipc (map_request fileid offset) dstva
    if perm - bit_and perm 0x102 == 0x80 then pure tt else halt

  unfoldable pub fsipc_set_size : ℕ → ℕ → PCmd (Unit {0})
  fsipc_set_size fileid size = do _ ← fsipc (set_size_request fileid size) 0; pure tt

  unfoldable pub fsipc_close : ℕ → PCmd (Unit {0})
  fsipc_close fileid = do _ ← fsipc (close_request fileid) 0; pure tt

  unfoldable pub fsipc_dirty : ℕ → ℕ → PCmd (Unit {0})
  fsipc_dirty fileid offset = do _ ← fsipc (dirty_request fileid offset) 0; pure tt

  unfoldable pub sync : PCmd (Unit {0})
  sync = do _ ← fsipc sync_request 0; pure tt

  -- The loops over `n` pages of a file from page `i` on.
  unfoldable pub map_from : ℕ → ℕ → ℕ → ℕ → PCmd (Unit {0})
  map_from zero i fileid va = pure tt
  map_from (suc n) i fileid va = do
    fsipc_map fileid (i * 4096) (va + i)
    map_from n (i + 1) fileid va

  unfoldable pub dirty_from : ℕ → ℕ → ℕ → PCmd (Unit {0})
  dirty_from zero i fileid = pure tt
  dirty_from (suc n) i fileid = do fsipc_dirty fileid (i * 4096); dirty_from n (i + 1) fileid

  unfoldable pub unmap_from : ℕ → ℕ → ℕ → PCmd (Unit {0})
  unmap_from zero i va = pure tt
  unmap_from (suc n) i va = do lift (mem_unmap (va + i)); unmap_from n (i + 1) va

  -- `open`, which yields the number of the new descriptor.
  unfoldable pub open_file : List ℕ → ℕ → PCmd ℕ
  open_file path mode = do
    fd ← lift fd_alloc
    fsipc_open path mode fd
    s ← get
    map_from (pages_of (filefd_at fd s).f_size) 0 (filefd_at fd s).f_fileid (fd2data fd)
    pure (fd2num fd)

  -- 1 where the file is there, else 0 after it is created.
  unfoldable pub create : List ℕ → ℕ → PCmd ℕ
  create path f_type = do fd ← lift fd_alloc; λ s. or_create fd (fsipc_open path 0 fd s)
    where
      or_create : ℕ → Run Process (Unit {0}) → Run Process ℕ
      or_create fd (ok a t) = ok 1 t
      or_create fd (fail e t) = (do fsipc_create path f_type fd; pure 0) t
      or_create fd panic = panic

  unfoldable pub file_close : ℕ → PCmd (Unit {0})
  file_close fd s =
      let size = (filefd_at fd s).f_size in
      let fileid = (filefd_at fd s).f_fileid in
      (do
        dirty_from (pages_of size) 0 fileid
        fsipc_close fileid
        unmap_from (pages_of size) 0 (fd2data fd))
        s

  -- The recovery of `ftruncate` when a page cannot be mapped: the server gets the old size back.
  abbrev pub or_restore : ℕ → ℕ → Run Process (Unit {0}) → Run Process (Unit {0})
  or_restore fileid oldsize (ok a t) = ok a t
  or_restore fileid oldsize (fail e t) = (do fsipc_set_size fileid oldsize; throw e) t
  or_restore fileid oldsize panic = panic

  unfoldable pub resize : ℕ → ℕ → ℕ → ℕ → PCmd (Unit {0})
  resize fd fileid oldsize size = do
    modify (set_size_of fd size)
    fsipc_set_size fileid size
    λ s.
        or_restore fileid oldsize
          (map_from (pages_of size - pages_of oldsize) (pages_of oldsize) fileid (fd2data fd) s)
    unmap_from (pages_of oldsize - pages_of size) (pages_of size) (fd2data fd)

  unfoldable pub ftruncate : ℕ → ℕ → PCmd (Unit {0})
  ftruncate fdnum size = if ltb maxfilesize size then throw e_no_disk else (do
    fd ← lift (fd_lookup fdnum)
    s ← get
    if not (is_file fd s)
        then throw e_inval
        else resize fd (filefd_at fd s).f_fileid (filefd_at fd s).f_size size)

  -- `buf` is an address; the number of bytes that are written.
  unfoldable pub file_write : ℕ → ℕ → ℕ → ℕ → PCmd ℕ
  file_write fd buf n offset s =
      let tot = (offset + n) % 2 ^ 32 in
      (if ltb maxfilesize tot then throw e_no_disk else (do
        if ltb (filefd_at fd s).f_size tot then ftruncate (fd2num fd) tot else pure tt
        modify (λ t. record t { ram = memcpy (fd2data fd * 4096 + offset) buf n t.ram })
        pure n))
        s

-- The number of bytes that are read; `buf` is an address.
unfoldable pub file_read : ℕ → ℕ → ℕ → ℕ → PCmd ℕ
file_read fd buf n offset s =
    let size = (filefd_at fd s).f_size in
    if ltb size offset
    then ok 0 s
    else (let m = if ltb size ((offset + n) % 2 ^ 32) then size - offset else n in
        ok m (record s { ram = memcpy buf (fd2data fd * 4096 + offset) m s.ram }))

-- The address of the file's byte at `offset`.
unfoldable pub read_map : ℕ → ℕ → PCmd ℕ
read_map fdnum offset = do
  fd ← lift (fd_lookup fdnum)
  s ← get
  if not (is_file fd s)
      then throw e_inval
      else (if leb maxfilesize offset
          then throw e_no_disk
          else (if not (s.space.vpd ((fd2data fd + offset / 4096) / 1024))
                || not (is_mapped (fd2data fd + offset / 4096) s.space)
              then throw e_no_disk
              else pure (fd2data fd * 4096 + offset)))

-- `st_name`, `st_size` and `st_isdir`; FTYPE_DIR is 1.
unfoldable pub file_stat : ℕ → PCmd (List ℕ × ℕ × Bool)
file_stat fd s =
    ok ((filefd_at fd s).f_name, (filefd_at fd s).f_size, (filefd_at fd s).f_type == 1) s
