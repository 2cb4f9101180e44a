-- ===== src/Serve.antt =====
-- fs/serv.c: the requests that the file system server answers.
pub mod Count
pub mod Once
mod Tests
use buaa_os_25spring.Prelude.{
  ℕ, zero, suc, ◌+◌, ◌-◌, ◌*◌, ◌/◌, Bool, true, false, not, ◌&&◌, ◌⊎◌, inl, inr, List, [], ◌∷◌, leb,
  ltb, ◌==◌, if◌then◌else◌, bit_and,
}
use buaa_os_25spring.Exec.{
  Error, Run, ok, fail, panic, Cmd, pure, get, modify, ◌>>=◌, ◌>>◌, e_inval, e_no_mem, e_max_open,
  e_file_exists,
}
use buaa_os_25spring.Fs.{Fs, FsCmd, store_word, update_bool, block_words}
use buaa_os_25spring.Fs.Block.{fs_sync}
use buaa_os_25spring.Fs.File.{f_size, f_type, file_get_block, file_dirty, file_set_size}
use buaa_os_25spring.Fs.Dir.{file_close}
use buaa_os_25spring.Fs.Update.{file_open, file_create, file_remove}

pub record Open : Type 0 where
  pub o_file : ℕ
  pub o_fileid : ℕ
  pub o_mode : ℕ
  pub o_ff : ℕ

-- `struct Filefd`; `f_file` gives the words of the copy of the file's structure.
pub record Filefd : Type 0 where
  pub fd_dev_id : ℕ
  pub fd_offset : ℕ
  pub fd_omode : ℕ
  pub f_fileid : ℕ
  pub f_file : ℕ → ℕ

-- What a reply maps in the client: nothing, a page of `o_ff`, or a block of the cache.
pub data Page : Type 0 where
  no_page : Page
  filefd_page cache_page : ℕ → Page

pub record Reply : Type 0 where
  pub to : ℕ
  pub value : Error ⊎ Unit {0}
  pub page : Page

-- `pageref` counts the mappings of each page of `o_ff`, `filefds` is what it holds; `sent` are the
-- replies, the last first.
pub record Server : Type 0 where
  pub fs : Fs
  pub opentab : ℕ → Open
  pub pageref : ℕ → ℕ
  pub filefds : ℕ → Filefd
  pub sent : List Reply

abbrev pub ServerCmd : Type 0 → Type 0
ServerCmd = Cmd Server

abbrev pub maxopen : ℕ
maxopen = 1024

-- The client has the page of a block of the cache as well.
abbrev pub share_block : Page → Fs → Fs
share_block (cache_page a) t = record t { shared = update_bool t.shared (a / block_words) true }
share_block other t = t

abbrev pub ipc_send : ℕ → Error ⊎ Unit {0} → Page → ServerCmd (Unit {0})
ipc_send whom r p s = ok tt (record s {
  sent = record { to = whom; value = r; page = p } ∷ s.sent;
  fs = share_block p s.fs;
})

-- A call of the file system, whose error the server looks at.
abbrev pub attempted : {A : Type 0} → Run Fs A → ServerCmd (Error ⊎ A)
attempted (ok a t) s = ok (inr a) (record s { fs = t })
attempted (fail e t) s = ok (inl e) (record s { fs = t })
attempted panic s = panic

abbrev pub attempt : {A : Type 0} → FsCmd A → ServerCmd (Error ⊎ A)
attempt m s = attempted (m s.fs) s

-- `if (r < 0) { ipc_send(envid, r, 0, 0); return; }`
abbrev pub or_reply :
    {A : Type 0} → ℕ → Error ⊎ A → (A → ServerCmd (Unit {0})) → ServerCmd (Unit {0})
or_reply whom (inl e) next = ipc_send whom (inl e) no_page
or_reply whom (inr a) next = next a

-- The start: entry `i` has the identifier `i` and the `i`-th page from FILEVA on.
unfoldable pub serve_init : Server → Server
serve_init s = record s { opentab = λ i. record (s.opentab i) { o_fileid = i; o_ff = 0x60000 + i } }

abbrev pub empty_filefd : Filefd
empty_filefd = record { fd_dev_id = 0; fd_offset = 0; fd_omode = 0; f_fileid = 0; f_file = λ w. 0 }

-- `memset` of the page to 0.
abbrev pub clear_filefd : ℕ → Server → Server
clear_filefd va s = record s { filefds = λ v. if v == va then empty_filefd else s.filefds v }

-- `syscall_mem_alloc` of a page of `o_ff`, when there is a page left.
abbrev pub give_page : ℕ → Server → Server
give_page va s = record s {
  fs = record s.fs { room = s.fs.room - 1 };
  pageref = λ v. if v == va then 1 else s.pageref v;
}

-- The loop of `open_alloc` with `n` entries left, at `i`: the entry that is found.
unfoldable pub open_alloc_from : ℕ → ℕ → ServerCmd (Error ⊎ ℕ)
open_alloc_from zero i s = ok (inl e_max_open) s
open_alloc_from (suc n) i s =
    let va = (s.opentab i).o_ff in
    let rest = open_alloc_from n (i + 1) s in
    if s.pageref va == 0
    then if s.fs.room == 0
      then ok (inl e_no_mem) s
      else ok (inr i) (clear_filefd va (give_page va s))
    else if s.pageref va == 1
    then ok (inr i) (clear_filefd va s)
    else rest

unfoldable pub open_alloc : ServerCmd (Error ⊎ ℕ)
open_alloc = open_alloc_from maxopen 0

-- The entry of a file identifier, if a client has the file open.
unfoldable pub open_lookup : ℕ → ServerCmd (Error ⊎ ℕ)
open_lookup fileid s =
    if leb maxopen fileid
    then ok (inl e_inval) s
    else if leb (s.pageref (s.opentab fileid).o_ff) 1
    then ok (inl e_inval) s
    else ok (inr fileid) s

-- The bits O_CREAT, O_TRUNC and O_APPEND of a mode.
abbrev pub has_flag : ℕ → ℕ → Bool
has_flag mode bits = not (bit_and mode bits == 0)

-- `file_create`, when the mode asks for it; that the file exists is no error.
abbrev pub allow_existing : Error ⊎ ℕ → Error ⊎ Unit {0}
allow_existing (inl e_file_exists) = inr tt
allow_existing (inl e) = inl e
allow_existing (inr f) = inr tt

unfoldable pub create_if_asked : List ℕ → ℕ → ServerCmd (Error ⊎ Unit {0})
create_if_asked path mode =
    if has_flag mode 0x100
    then (do r ← attempt (file_create path); pure (allow_existing r))
    else pure (inr tt)

-- The reply to an error of `file_set_size` does not end `serve_open`.
abbrev pub report : ℕ → Error ⊎ Unit {0} → ServerCmd (Unit {0})
report whom (inl e) = ipc_send whom (inl e) no_page
report whom (inr a) = pure tt

unfoldable pub truncate_if_asked : ℕ → ℕ → ℕ → ServerCmd (Unit {0})
truncate_if_asked whom f mode =
    if has_flag mode 0x200 then (do r ← attempt (file_set_size f 0); report whom r) else pure tt

-- The `struct Filefd` of an open file.
abbrev pub filled : ℕ → ℕ → ℕ → Server → Filefd
filled i f mode s = record {
  fd_dev_id = 102;
  fd_offset =
      if has_flag mode 0x2000
      then s.fs.cache (f_size f)
      else (s.filefds (s.opentab i).o_ff).fd_offset;
  fd_omode = mode;
  f_fileid = (s.opentab i).o_fileid;
  f_file = λ w. s.fs.cache (f + w);
}

abbrev pub fill_filefd : ℕ → ℕ → ℕ → Server → Server
fill_filefd i f mode s = record s {
  opentab = λ j. if j == i then record (s.opentab j) { o_mode = mode } else s.opentab j;
  filefds = λ v. if v == (s.opentab i).o_ff then filled i f mode s else s.filefds v;
}

abbrev pub set_o_file : ℕ → ℕ → Server → Server
set_o_file i f s = record s {
  opentab = λ j. if j == i then record (s.opentab j) { o_file = f } else s.opentab j;
}

-- `serve_open` once the file is found.
unfoldable pub open_found : ℕ → ℕ → ℕ → ℕ → ServerCmd (Unit {0})
open_found whom i mode f = do
  modify (set_o_file i f)
  truncate_if_asked whom f mode
  modify (fill_filefd i f mode)
  s ← get
  ipc_send whom (inr tt) (filefd_page (s.opentab i).o_ff)

unfoldable pub serve_open : ℕ → List ℕ → ℕ → ServerCmd (Unit {0})
serve_open whom path mode = do
  o ← open_alloc
  or_reply whom o (λ i. do
    c ← create_if_asked path mode
    or_reply whom c
        (λ _. do f ← attempt (file_open path); or_reply whom f (open_found whom i mode)))

-- What the requests on an open file have in common.
abbrev pub with_open : ℕ → ℕ → (ℕ → ServerCmd (Unit {0})) → ServerCmd (Unit {0})
with_open whom fileid next = do
  o ← open_lookup fileid
  or_reply whom o (λ i. do s ← get; next (s.opentab i).o_file)

unfoldable pub serve_map : ℕ → ℕ → ℕ → ServerCmd (Unit {0})
serve_map whom fileid offset = with_open whom fileid (λ f. do
  blk ← attempt (file_get_block f (offset / 4096))
  or_reply whom blk (λ a. ipc_send whom (inr tt) (cache_page a)))

unfoldable pub serve_set_size : ℕ → ℕ → ℕ → ServerCmd (Unit {0})
serve_set_size whom fileid size = with_open whom fileid (λ f. do
  r ← attempt (file_set_size f size)
  or_reply whom r (λ a. ipc_send whom (inr tt) no_page))

-- `file_close` and `fs_sync` return nothing.
unfoldable pub serve_close : ℕ → ℕ → ServerCmd (Unit {0})
serve_close whom fileid =
    with_open whom fileid (λ f. do _ ← attempt (file_close f); ipc_send whom (inr tt) no_page)

unfoldable pub serve_remove : ℕ → List ℕ → ServerCmd (Unit {0})
serve_remove whom path = do r ← attempt (file_remove path); ipc_send whom r no_page

unfoldable pub serve_dirty : ℕ → ℕ → ℕ → ServerCmd (Unit {0})
serve_dirty whom fileid offset = with_open whom fileid (λ f. do
  r ← attempt (file_dirty f offset)
  or_reply whom r (λ a. ipc_send whom (inr tt) no_page))

unfoldable pub serve_sync : ℕ → ServerCmd (Unit {0})
serve_sync whom = do _ ← attempt fs_sync; ipc_send whom (inr tt) no_page

unfoldable pub serve_create : ℕ → List ℕ → ℕ → ServerCmd (Unit {0})
serve_create whom path kind = do
  r ← attempt (file_create path)
  or_reply whom r (λ f. do _ ← attempt (store_word (f_type f) kind); ipc_send whom (inr tt) no_page)

-- A request by its number in `serve_table`, with the page of its arguments.
pub data Request : Type 0 where
  fsreq_open : List ℕ → ℕ → Request
  fsreq_map fsreq_set_size fsreq_dirty : ℕ → ℕ → Request
  fsreq_close : ℕ → Request
  fsreq_remove : List ℕ → Request
  fsreq_sync : Request
  fsreq_create : List ℕ → ℕ → Request
  no_argument_page : Request
  bad_number : Request

-- One round of the loop of `serve`.
unfoldable pub serve_one : ℕ → Request → ServerCmd (Unit {0})
serve_one whom (fsreq_open path mode) = serve_open whom path mode
serve_one whom (fsreq_map fileid offset) = serve_map whom fileid offset
serve_one whom (fsreq_set_size fileid size) = serve_set_size whom fileid size
serve_one whom (fsreq_dirty fileid offset) = serve_dirty whom fileid offset
serve_one whom (fsreq_close fileid) = serve_close whom fileid
serve_one whom (fsreq_remove path) = serve_remove whom path
serve_one whom fsreq_sync = serve_sync whom
serve_one whom (fsreq_create path kind) = serve_create whom path kind
serve_one whom no_argument_page = pure tt
serve_one whom bad_number = pure tt
