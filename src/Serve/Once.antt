-- ===== src/Serve/Once.antt =====
-- fs/serv.c: every request is answered once.
use buaa_os_25spring.Prelude.{
  ℕ, zero, suc, ◌+◌, ◌/◌, ◌≡◌, inl, inr, refl, ◌∙◌, List, ◌==◌, Bool-cases,
}
use buaa_os_25spring.Exec.{Run, ok, fail, panic, pure, and_then, ◌>>=◌}
use buaa_os_25spring.Fs.{Fs, FsCmd, store_word}
use buaa_os_25spring.Fs.Block.{fs_sync}
use buaa_os_25spring.Fs.File.{f_type, file_get_block, file_dirty, file_set_size}
use buaa_os_25spring.Fs.File.Sure.{Sure, file_set_size-Sure}
use buaa_os_25spring.Fs.Dir.{file_close}
use buaa_os_25spring.Fs.Update.{file_open, file_create, file_remove}
use buaa_os_25spring.Serve.{
  Server, ServerCmd, Reply, Request, fsreq_open, fsreq_map, fsreq_set_size, fsreq_dirty,
  fsreq_close, fsreq_remove, fsreq_sync, fsreq_create, no_argument_page, bad_number, no_page,
  cache_page, filefd_page, ipc_send, attempted, attempt, or_reply, open_alloc_from, open_alloc,
  has_flag, allow_existing, create_if_asked, report, truncate_if_asked, set_o_file, fill_filefd,
  open_found, serve_open, serve_map, serve_set_size, serve_dirty, serve_close, serve_remove,
  serve_sync, serve_create, serve_one, maxopen,
}
use buaa_os_25spring.Serve.Count.{
  Returns, Returns-and_then, Returns-if, Quiet, Replied, attempted-Quiet, or_reply-Replied,
  send-Replied, with_open-Replied,
}

open_alloc_from-Quiet : (n i : ℕ) (s : Server) → Returns (Quiet s.sent) (open_alloc_from n i s)
unfolding open_alloc_from
open_alloc_from-Quiet zero i s = refl
open_alloc_from-Quiet (suc n) i s = elim (Bool-cases (s.pageref (s.opentab i).o_ff == 0)) [
  | inl e ↦ elim (Bool-cases (s.fs.room == 0)) [ inl z ↦ rw (e, z) refl | inr z ↦ rw (e, z) refl ]
  | inr e ↦ elim (Bool-cases (s.pageref (s.opentab i).o_ff == 1)) [
    | inl z ↦ rw (e, z) refl
    | inr z ↦ rw (e, z) (open_alloc_from-Quiet n (i + 1) s)
  ]
]

open_alloc-Quiet : (s : Server) → Returns (Quiet s.sent) (open_alloc s)
unfolding open_alloc
open_alloc-Quiet s = open_alloc_from-Quiet maxopen 0 s

create_if_asked-Quiet :
    (path : List ℕ) (mode : ℕ) (s : Server) → Returns (Quiet s.sent) (create_if_asked path mode s)
unfolding create_if_asked
create_if_asked-Quiet path mode s =
    Returns-if (Quiet s.sent) (has_flag mode 0x100)
      (attempt (file_create path) >>= λ r. pure (allow_existing r)) (pure (inr tt)) s
      (Returns-and_then (Quiet s.sent) (Quiet s.sent) (attempt (file_create path) s)
        (λ r. pure (allow_existing r)) (attempted-Quiet (file_create path s.fs) s)
        (λ r t same. same))
      refl

-- No reply is sent for `file_set_size`, since it returns no error.
truncated-Quiet :
    (whom : ℕ) (r : Run Fs (Unit {0})) (s : Server)
    → Sure r
    → Returns (Quiet s.sent) (and_then (attempted r s) (report whom))
truncated-Quiet whom (ok a t) s h = refl
truncated-Quiet whom (fail e t) s h = absurd h
truncated-Quiet whom panic s h = tt

truncate_if_asked-Quiet :
    (whom f mode : ℕ) (s : Server) → Returns (Quiet s.sent) (truncate_if_asked whom f mode s)
unfolding truncate_if_asked
truncate_if_asked-Quiet whom f mode s =
    Returns-if (Quiet s.sent) (has_flag mode 0x200) (attempt (file_set_size f 0) >>= report whom)
      (pure tt) s (truncated-Quiet whom (file_set_size f 0 s.fs) s (file_set_size-Sure f 0 s.fs))
      refl

open_found-Replied :
    (whom i mode f : ℕ) (l : List Reply) (s : Server)
    → s.sent ≡ l
    → Returns (Replied whom l) (open_found whom i mode f s)
unfolding open_found
open_found-Replied whom i mode f l s h =
    Returns-and_then (Quiet s.sent) (Replied whom l)
      (truncate_if_asked whom f mode (set_o_file i f s))
      (λ _ t.
        ipc_send whom (inr tt) (filefd_page ((fill_filefd i f mode t).opentab i).o_ff)
          (fill_filefd i f mode t))
      (truncate_if_asked-Quiet whom f mode (set_o_file i f s))
      (λ _ t same.
        send-Replied whom l (inr tt) (filefd_page ((fill_filefd i f mode t).opentab i).o_ff)
          (fill_filefd i f mode t) (same ∙ h))

serve_open-Replied :
    (whom : ℕ) (path : List ℕ) (mode : ℕ) (s : Server)
    → Returns (Replied whom s.sent) (serve_open whom path mode s)
unfolding serve_open
serve_open-Replied whom path mode s =
    Returns-and_then (Quiet s.sent) (Replied whom s.sent) (open_alloc s)
      (λ o. or_reply whom o after_alloc) (open_alloc-Quiet s)
      (λ o t same. or_reply-Replied whom s.sent o after_alloc t same (λ i. create_it i t same))
  where
    open_it : ℕ → ServerCmd (Unit {0})
    open_it i = attempt (file_open path) >>= λ f. or_reply whom f (open_found whom i mode)

    after_alloc : ℕ → ServerCmd (Unit {0})
    after_alloc i = create_if_asked path mode >>= λ c. or_reply whom c (λ a. open_it i)

    found : (i : ℕ) (t : Server) → t.sent ≡ s.sent → Returns (Replied whom s.sent) (open_it i t)
    found i t same =
        Returns-and_then (Quiet t.sent) (Replied whom s.sent) (attempt (file_open path) t)
          (λ f. or_reply whom f (open_found whom i mode)) (attempted-Quiet (file_open path t.fs) t)
          (λ f u same'.
            or_reply-Replied whom s.sent f (open_found whom i mode) u (same' ∙ same)
              (λ a. open_found-Replied whom i mode a s.sent u (same' ∙ same)))

    create_it :
        (i : ℕ) (t : Server) → t.sent ≡ s.sent → Returns (Replied whom s.sent) (after_alloc i t)
    create_it i t same =
        Returns-and_then (Quiet t.sent) (Replied whom s.sent) (create_if_asked path mode t)
          (λ c. or_reply whom c (λ a. open_it i)) (create_if_asked-Quiet path mode t)
          (λ c u same'.
            or_reply-Replied whom s.sent c (λ a. open_it i) u (same' ∙ same)
              (λ a. found i u (same' ∙ same)))

-- The requests that are answered with the outcome of one call.
serve_map-Replied :
    (whom fileid offset : ℕ) (s : Server)
    → Returns (Replied whom s.sent) (serve_map whom fileid offset s)
unfolding serve_map
serve_map-Replied whom fileid offset s =
    with_open-Replied whom fileid
      (λ f. attempt (file_get_block f (offset / 4096)) >>= λ r.
        or_reply whom r (λ a. ipc_send whom (inr tt) (cache_page a)))
      s
      (λ f t same.
        Returns-and_then (Quiet t.sent) (Replied whom s.sent)
          (attempt (file_get_block f (offset / 4096)) t)
          (λ r. or_reply whom r (λ a. ipc_send whom (inr tt) (cache_page a)))
          (attempted-Quiet (file_get_block f (offset / 4096) t.fs) t)
          (λ r u same'.
            or_reply-Replied whom s.sent r (λ a. ipc_send whom (inr tt) (cache_page a)) u
              (same' ∙ same)
              (λ a. send-Replied whom s.sent (inr tt) (cache_page a) u (same' ∙ same))))

-- A call on an open file that is answered by its outcome alone.
outcome-Replied :
    {A : Type 0} (whom : ℕ) (m : FsCmd A) (l : List Reply) (t : Server)
    → t.sent ≡ l
    → Returns
        (Replied whom l)
        (and_then (attempt m t) (λ r. or_reply whom r (λ a. ipc_send whom (inr tt) no_page)))
outcome-Replied whom m l t same =
    Returns-and_then (Quiet t.sent) (Replied whom l) (attempt m t)
      (λ r. or_reply whom r (λ a. ipc_send whom (inr tt) no_page)) (attempted-Quiet (m t.fs) t)
      (λ r u same'.
        or_reply-Replied whom l r (λ a. ipc_send whom (inr tt) no_page) u (same' ∙ same)
          (λ a. send-Replied whom l (inr tt) no_page u (same' ∙ same)))

-- One whose outcome is not looked at.
done-Replied :
    {A : Type 0} (whom : ℕ) (m : FsCmd A) (l : List Reply) (t : Server)
    → t.sent ≡ l
    → Returns (Replied whom l) (and_then (attempt m t) (λ r. ipc_send whom (inr tt) no_page))
done-Replied whom m l t same =
    Returns-and_then (Quiet t.sent) (Replied whom l) (attempt m t)
      (λ r. ipc_send whom (inr tt) no_page) (attempted-Quiet (m t.fs) t)
      (λ r u same'. send-Replied whom l (inr tt) no_page u (same' ∙ same))

serve_set_size-Replied :
    (whom fileid size : ℕ) (s : Server)
    → Returns (Replied whom s.sent) (serve_set_size whom fileid size s)
unfolding serve_set_size
serve_set_size-Replied whom fileid size s =
    with_open-Replied whom fileid
      (λ f. attempt (file_set_size f size) >>= λ r.
        or_reply whom r (λ a. ipc_send whom (inr tt) no_page))
      s (λ f t same. outcome-Replied whom (file_set_size f size) s.sent t same)

serve_dirty-Replied :
    (whom fileid offset : ℕ) (s : Server)
    → Returns (Replied whom s.sent) (serve_dirty whom fileid offset s)
unfolding serve_dirty
serve_dirty-Replied whom fileid offset s =
    with_open-Replied whom fileid
      (λ f. attempt (file_dirty f offset) >>= λ r.
        or_reply whom r (λ a. ipc_send whom (inr tt) no_page))
      s (λ f t same. outcome-Replied whom (file_dirty f offset) s.sent t same)

serve_close-Replied :
    (whom fileid : ℕ) (s : Server) → Returns (Replied whom s.sent) (serve_close whom fileid s)
unfolding serve_close
serve_close-Replied whom fileid s =
    with_open-Replied whom fileid
      (λ f. attempt (file_close f) >>= λ r. ipc_send whom (inr tt) no_page) s
      (λ f t same. done-Replied whom (file_close f) s.sent t same)

serve_remove-Replied :
    (whom : ℕ) (path : List ℕ) (s : Server)
    → Returns (Replied whom s.sent) (serve_remove whom path s)
unfolding serve_remove
serve_remove-Replied whom path s =
    Returns-and_then (Quiet s.sent) (Replied whom s.sent) (attempt (file_remove path) s)
      (λ r. ipc_send whom r no_page) (attempted-Quiet (file_remove path s.fs) s)
      (λ r u same. send-Replied whom s.sent r no_page u same)

serve_sync-Replied : (whom : ℕ) (s : Server) → Returns (Replied whom s.sent) (serve_sync whom s)
unfolding serve_sync
serve_sync-Replied whom s = done-Replied whom fs_sync s.sent s refl

serve_create-Replied :
    (whom : ℕ) (path : List ℕ) (kind : ℕ) (s : Server)
    → Returns (Replied whom s.sent) (serve_create whom path kind s)
unfolding serve_create
serve_create-Replied whom path kind s =
    Returns-and_then (Quiet s.sent) (Replied whom s.sent) (attempt (file_create path) s)
      (λ r. or_reply whom r typed) (attempted-Quiet (file_create path s.fs) s)
      (λ r u same.
        or_reply-Replied whom s.sent r typed u same
          (λ f. done-Replied whom (store_word (f_type f) kind) s.sent u same))
  where
    typed : ℕ → ServerCmd (Unit {0})
    typed f = attempt (store_word (f_type f) kind) >>= λ r. ipc_send whom (inr tt) no_page

-- What a request is due: one reply to its sender, or none if it has no argument page or a number that
-- is not in the table.
abbrev pub Answered : ℕ → Request → List Reply → Unit {0} → Server → Type 0
Answered whom no_argument_page l a t = t.sent ≡ l
Answered whom bad_number l a t = t.sent ≡ l
Answered whom q l a t = Replied whom l a t

-- One round of the server never ends in an error. Unless it panics, it sends exactly one reply, to the
-- sender of the request, whatever the outcome of the calls of the file system; a request without an
-- argument page, or with a number that is not in the table, gets no reply.
pub serve_one_lem :
    (whom : ℕ) (q : Request) (s : Server) → Returns (Answered whom q s.sent) (serve_one whom q s)
unfolding serve_one
serve_one_lem whom (fsreq_open path mode) s = serve_open-Replied whom path mode s
serve_one_lem whom (fsreq_map fileid offset) s = serve_map-Replied whom fileid offset s
serve_one_lem whom (fsreq_set_size fileid size) s = serve_set_size-Replied whom fileid size s
serve_one_lem whom (fsreq_dirty fileid offset) s = serve_dirty-Replied whom fileid offset s
serve_one_lem whom (fsreq_close fileid) s = serve_close-Replied whom fileid s
serve_one_lem whom (fsreq_remove path) s = serve_remove-Replied whom path s
serve_one_lem whom fsreq_sync s = serve_sync-Replied whom s
serve_one_lem whom (fsreq_create path kind) s = serve_create-Replied whom path kind s
serve_one_lem whom no_argument_page s = refl
serve_one_lem whom bad_number s = refl
