-- ===== src/Exercises/Signals.antt =====
-- The sets of signals of the operating system, as B2/Signal/main.c, B2/Thread/main.c and
-- B2/Process/BT1_SIGCHILD/main.c use them.
use btvnlinux.Prelude.{ℕ}
use btvnlinux.Prelude.Int.{ℤ}

-- The type `sigset_t` with what the functions on it answer: `sigismember`, `sigemptyset` (its result
-- and the set that it leaves) and `sigaddset`; the mask that SIG_BLOCK makes of an old mask and a
-- set; NSIG, SIGINT and SIGCHLD.
pub record SignalSets : Type 1 where
  pub Sigset : Type 0
  pub sigismember : Sigset → ℕ → ℤ
  pub sigemptyset : Sigset → ℤ × Sigset
  pub sigaddset : Sigset → ℕ → Sigset
  pub sig_block : Sigset → Sigset → Sigset
  pub nsig : ℕ
  pub sigint : ℕ
  pub sigchld : ℕ

-- What is printed, a call of `printf`, `fprintf` or `perror` each.
pub data Line : Type 0 where
  heading : Line
  member : (sig : ℕ) → Line
  no_members : Line
  null_parameter : Line
  no_such_signal : (sig : ℕ) → Line
  digit : (res : ℤ) → Line
  said_empty : Line
  said_non_empty : Line
  cannot_handle_sigint : Line
  was_blocked : Line
  was_not_blocked : Line
  mask_is : Line
  child_is_here : Line
  wait_failed : Line
  fork_failed : Line
  handler_ran : Line
  create_failed : (ret : ℤ) → Line
