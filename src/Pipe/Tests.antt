-- ===== src/Pipe/Tests.antt =====
-- The theorems on user/lib/pipe.c at a pipe that holds two bytes, across the end of the buffer.
use buaa_os_25spring.Prelude.{
  ℕ, suc, zero, ◌+◌, ◌%◌, ◌<◌, ◌≤◌, ◌≡◌, ◌⊎◌, refl, false, List, [], ◌∷◌, ◌==◌, if◌then◌else◌,
  arith, get_or,
}
use buaa_os_25spring.Pipe.{Pipe, returns, yields, pipe_read, pipe_size}
use buaa_os_25spring.Pipe.Ring.{Holds, take, drop, WrittenTo, pipe_read_lem, pipe_write_lem}

abbrev two_bytes : Pipe
two_bytes = record { p_rpos = 31; p_wpos = 33; p_buf = λ i. if i == 31 then 7 else 8 }

two_bytes-Holds : Holds two_bytes (7 ∷ 8 ∷ [])
two_bytes-Holds = record {
  positions = refl;
  fits = omega arith;
  word = omega arith;
  bytes = by_index;
}
  where
    by_index : (i : ℕ) → i < 2 → two_bytes.p_buf ((31 + i) % pipe_size) ≡ get_or (7 ∷ 8 ∷ []) i 0
    by_index zero h = refl
    by_index (suc zero) h = refl
    by_index (suc (suc i)) h = absurd (omega arith)

abbrev held : List ℕ
held = 7 ∷ 8 ∷ []

pipe_read_lem_example :
    ((held ≡ [])
      × (false ≡ false)
      × (1 ≤ 3)
      × (pipe_read 3 [] false two_bytes ≡ yields [] two_bytes))
    ⊎ (p' : Pipe) × (pipe_read 3 [] false two_bytes ≡ returns (take 3 held) p')
      × Holds p' (drop 3 held)
pipe_read_lem_example = pipe_read_lem 3 false two_bytes held two_bytes-Holds

pipe_write_lem_example : (p' : Pipe) × WrittenTo (9 ∷ 10 ∷ []) 0 false two_bytes held p'
pipe_write_lem_example =
    pipe_write_lem (9 ∷ 10 ∷ []) 0 false two_bytes held two_bytes-Holds (omega arith)
