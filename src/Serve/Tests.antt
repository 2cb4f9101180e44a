-- ===== src/Serve/Tests.antt =====
-- One request to a server with a small disk, on which a client has the file 1 open.
use buaa_os_25spring.Prelude.{
  ◌+◌, ◌≡◌, refl, true, false, inl, List, [], ◌∷◌, leb, ◌==◌, if◌then◌else◌,
}
use buaa_os_25spring.Exec.{Run, ok, e_inval}
use buaa_os_25spring.Fs.{Fs}
use buaa_os_25spring.Serve.{
  Server, Reply, no_page, empty_filefd, serve_one, serve_close, open_lookup, fsreq_open,
  fsreq_close,
}
use buaa_os_25spring.Serve.Count.{Returns}
use buaa_os_25spring.Serve.Once.{Answered, serve_one_lem}

abbrev empty_disk : Fs
empty_disk = record {
  cache = λ w. if w == 1025 then 8 else if w == 1059 then 1 else 0;
  disk = λ w. 0;
  mapped = λ b. leb b 2;
  dirty = λ b. false;
  room = 4;
  shared = λ b. false;
  super = true;
  bitmap = true;
}

abbrev server : Server
server = record {
  fs = empty_disk;
  opentab = λ i. record { o_file = 1026; o_fileid = i; o_mode = 0; o_ff = 0x60000 + i };
  pageref = λ v. if v == 0x60001 then 2 else 0;
  filefds = λ v. empty_filefd;
  sent = [];
}

abbrev replies : Run Server (Unit {0}) → List Reply
replies (ok a s) = s.sent
replies _ = []

-- Environment 9 closes a file that it has not open.
not_open :
    replies (serve_one 9 (fsreq_close 3) server)
    ≡ record { to = 9; value = inl e_inval; page = no_page } ∷ []
unfolding serve_one serve_close open_lookup
not_open = refl

-- Environment 9 opens the file "a" for reading and writing, to be created.
serve_one_lem_example :
    Returns
      (Answered 9 (fsreq_open (97 ∷ []) 0x102) [])
      (serve_one 9 (fsreq_open (97 ∷ []) 0x102) server)
serve_one_lem_example = serve_one_lem 9 (fsreq_open (97 ∷ []) 0x102) server
