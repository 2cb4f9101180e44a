-- ===== src/Env.antt =====
-- kern/env.c and kern/sched.c: environments (processes), their identifiers, and the scheduler.
-- An `struct Env *` is an index into `envs`; `env_free_list` and `env_sched_list` are the
-- sequences of their elements (the links are those of include/queue.h).
pub mod State
pub mod Ids
pub mod Alloc
pub mod Create
pub mod Sched
pub mod Tests
