-- ===== src/Client/Tests.antt =====
-- A file of 5000 bytes that is open as descriptor 1, and a server that maps what it is asked to map.
use buaa_os_25spring.Prelude.{
  ℕ, refl, ◌+◌, ◌<◌, ◌≡◌, inl, inr, true, none, some, [], arith, ◌==◌, leb, ltb, ◌&&◌,
  if◌then◌else◌, List, length,
}
use buaa_os_25spring.Exec.{ok}
use buaa_os_25spring.Fd.{index2fd}
use buaa_os_25spring.Client.{
  Process, PCmd, Request, map_request, open_request, set_size_request, dirty_request, close_request,
  sync_request, create_request, file_read, file_write,
}
use buaa_os_25spring.Fd.{Space, devfile, dev_lookup}
use buaa_os_25spring.Fd.Io.{Devices, readn}
use buaa_os_25spring.Fd.Stream.{take, drop, OpenAt}
use buaa_os_25spring.Client.Device.{with_files, file_bytes, readn_file}
use buaa_os_25spring.Client.Read.{file_read-file_write}

abbrev map_page : ℕ → Process → Process
map_page v s = record s {
  space = record s.space { vpt = λ w. if w == v then some (9, 2) else s.space.vpt w };
}

abbrev serve : Request → ℕ → PCmd ℕ
serve (map_request f o) v s = ok 0x82 (map_page v s)
serve (open_request p o) v s = ok 0 s
serve (set_size_request f n) v s = ok 0 s
serve (dirty_request f o) v s = ok 0 s
serve (close_request f) v s = ok 0 s
serve sync_request v s = ok 0 s
serve (create_request p t) v s = ok 0 s

-- The descriptor's page is 3; two pages of data are mapped.
abbrev one_file : Process
one_file = record {
  space = record {
    vpd = λ t. true;
    vpt = λ v.
        if v == 0x5fc01
        then some (3, 2)
        else if leb 0x60400 v && ltb v 0x60402
        then some (v, 2)
        else none;
    room = 0;
    fds = λ p. record { fd_dev_id = 102; fd_offset = 0; fd_omode = 2 };
  };
  filefds = λ p. record { f_fileid = 7; f_size = 5000; f_type = 0; f_name = [] };
  ram = λ a. a;
}

file_read-file_write_example :
    (t : Process) × (u : Process) × (file_write serve (index2fd 1) 0x1000 8 100 one_file ≡ ok 8 t)
    × (file_read (index2fd 1) 0x2000 8 100 t ≡ ok 8 u)
    × ((i : ℕ) → i < 8 → u.ram (0x2000 + i) ≡ one_file.ram (0x1000 + i))
file_read-file_write_example =
    file_read-file_write serve (index2fd 1) 0x1000 0x2000 8 100 one_file (omega arith) (omega arith)
      (omega arith) (inr (omega arith)) (inl (omega arith))

-- A device that takes what it is given, for the console and for pipes.
abbrev others : Devices
others = record {
  dev_read = λ d fd n off s. ok [] s;
  dev_write = λ d fd bs off s. ok (length bs) s;
  dev_close = λ d fd s. ok tt s;
  dev_stat = λ d fd st s. ok st s;
}

one_file-OpenAt : OpenAt 1 devfile (some (3, 2)) 0 one_file.space
unfolding dev_lookup
one_file-OpenAt = (omega arith, (refl, refl), λ t. refl, refl, refl)

abbrev devices : Devices
devices = with_files others one_file.filefds one_file.ram 0x70000000

abbrev content : List ℕ
content = file_bytes others one_file.filefds one_file.ram 0x70000000 (index2fd 1) (some (3, 2))

readn_file_example :
    (t : Space) × (readn devices 1 7 one_file.space ≡ ok (take 7 (drop 0 content)) t)
    × OpenAt 1 devfile (some (3, 2)) (0 + length (take 7 (drop 0 content))) t
readn_file_example =
    readn_file others one_file.filefds one_file.ram 0x70000000 1 7 0 (some (3, 2)) one_file.space
      (omega arith) (omega arith) one_file-OpenAt
