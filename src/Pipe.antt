-- ===== src/Pipe.antt =====
-- user/lib/pipe.c: the ring buffer of a pipe, and what pipe_read and pipe_write do with it until
-- they return or yield. The transfer of one byte, with its position, is one step. Whether the pipe
-- is closed is the argument `closed`, for `_pipe_is_closed`.
pub mod Ring
mod Tests
use buaa_os_25spring.Prelude.{
  ℕ, zero, suc, ◌+◌, ◌-◌, ◌%◌, ◌^◌, Bool, true, false, not, ◌||◌, Option, none, some, List, [], ◌∷◌,
  ◌++◌, leb, ◌==◌, if◌then◌else◌, length,
}

abbrev pub pipe_size : ℕ
pipe_size = 32

-- `struct Pipe`
pub record Pipe : Type 0 where
  pub p_rpos : ℕ
  pub p_wpos : ℕ
  pub p_buf : ℕ → ℕ

-- `p->p_buf[(p->p_rpos++) % PIPE_SIZE]`
abbrev pub next_byte : Pipe → ℕ
next_byte p = p.p_buf (p.p_rpos % pipe_size)

abbrev pub after_read : Pipe → Pipe
after_read p = record p { p_rpos = (p.p_rpos + 1) % 2 ^ 32 }

-- `p->p_buf[(p->p_wpos++) % PIPE_SIZE] = b`
abbrev pub after_write : ℕ → Pipe → Pipe
after_write b p = record p {
  p_buf = λ i. if i == p.p_wpos % pipe_size then b else p.p_buf i;
  p_wpos = (p.p_wpos + 1) % 2 ^ 32;
}

-- How a call goes on: it returns, or it yields and tries again.
pub data Progress (A : Type 0) : Type 0 where
  returns : A → Pipe → Progress A
  yields : A → Pipe → Progress A

abbrev pub is_empty : List ℕ → Bool
is_empty [] = true
is_empty _ = false

-- `pipe_read` with `n` bytes still wanted and the bytes `got`.
unfoldable pub pipe_read : ℕ → List ℕ → Bool → Pipe → Progress (List ℕ)
pipe_read zero got closed p = returns got p
pipe_read (suc n) got closed p =
    let rest = pipe_read n (got ++ (next_byte p ∷ [])) closed (after_read p) in
    if leb p.p_wpos p.p_rpos
    then (if not (is_empty got) || closed then returns got p else yields got p)
    else rest

-- `pipe_write` with the bytes `bs` still to write and `i` bytes written.
unfoldable pub pipe_write : List ℕ → ℕ → Bool → Pipe → Progress ℕ
pipe_write [] i closed p = returns i p
pipe_write (b ∷ bs) i closed p =
    let rest = pipe_write bs (i + 1) closed (after_write b p) in
    if leb pipe_size ((p.p_wpos + 2 ^ 32 - p.p_rpos) % 2 ^ 32)
    then (if closed then returns i p else yields i p)
    else rest
