-- ===== src/Fd/Tests.antt =====
-- The theorems on descriptors at a process with one open file.
use buaa_os_25spring.Prelude.{refl, arith, none, some, ◌==◌, if◌then◌else◌}
use buaa_os_25spring.Exec.Ends.{Ends}
use buaa_os_25spring.Fd.{Fd, Space, index2fd, fd_alloc}
use buaa_os_25spring.Fd.Table.{First, AllUsed, fd_alloc_lem}
use buaa_os_25spring.Fd.Dup.{share_pages}
use buaa_os_25spring.Fd.Shared.{Shares, NoMemory, share_pages_lem}

abbrev open_fd : Fd
open_fd = record { fd_dev_id = 102; fd_offset = 1; fd_omode = 0 }

abbrev one_open : Space
one_open = record {
  vpd = λ d. d == 383;
  vpt = λ v. if v == index2fd 0 then some (7, 1024) else none;
  room = 2;
  fds = λ p. open_fd;
}

second_free : Ends (First 31 0 one_open) (AllUsed 31 0 one_open) (fd_alloc one_open)
second_free = fd_alloc_lem one_open

share_pages_lem_example :
    Ends
      (λ _. Shares (index2fd 0) (index2fd 5) one_open)
      NoMemory
      (share_pages (index2fd 0) (index2fd 5) one_open)
share_pages_lem_example = share_pages_lem 0 5 one_open (omega arith) (omega arith) refl
