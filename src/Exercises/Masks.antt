-- ===== src/Exercises/Masks.antt =====
-- The programs that block and handle signals: B2/Signal/main.c, B2/Thread/main.c and
-- B2/Process/BT1_SIGCHILD/main.c. What the operating system answers is an argument; a process is
-- what it has asked for and what it has printed.
use btvnlinux.Prelude.{
  ℕ, ◌-◌, ◌≡◌, refl, Bool, true, false, some, List, [], ◌∷◌, ◌++◌, if◌then◌else◌,
}
use btvnlinux.Prelude.Int.{ℤ, pos, negsuc, eqb_ℤ}
use btvnlinux.Memory.{Cmd, ok, Fault, pure, fail, hang, ◌>>=◌, ◌>>◌}
use btvnlinux.Exercises.Signals.{
  SignalSets, Line, cannot_handle_sigint, was_blocked, was_not_blocked, mask_is, wait_failed,
  create_failed,
}
use btvnlinux.Exercises.PrintSet.{print_sigset, print_set_bin, members, listed, print_sigset-listed}

module _ (S : SignalSets) where
  open S use {Sigset, sigismember, sigemptyset, sigaddset, sig_block, sigint, sigchld}

  -- The mask of a process or a thread, the signals that it handles, and what is printed.
  pub record Process : Type 0 where
    pub mask : Sigset
    pub handled : List ℕ
    pub out : List Line

  abbrev pub say : List Line → Cmd Process (Unit {0})
  say ls p = ok tt (record p { out = p.out ++ ls })

  -- `sigemptyset(set)`, its result not being looked at
  abbrev pub emptied : Sigset → Sigset
  emptied set = (sigemptyset set).1

  -- `if (signal(sig, handler) == SIG_ERR) { ... exit(EXIT_FAILURE); }`; `refused` tells whether
  -- `signal` returns SIG_ERR. All three programs name SIGINT in the message.
  abbrev pub handle : (refused : Bool) → (sig : ℕ) → Cmd Process (Unit {0})
  handle true sig = do say (cannot_handle_sigint ∷ []); fail (Fault.exit 1)
  handle false sig = λ p. ok tt (record p { handled = sig ∷ p.handled })

  -- `if (sigismember(set, sig) == 1) ... else if (sigismember(set, sig) == 0) ...`
  abbrev pub say_blocked : Sigset → (sig : ℕ) → Cmd Process (Unit {0})
  say_blocked set sig =
      if eqb_ℤ (sigismember set sig) (pos 1)
      then say (was_blocked ∷ [])
      else if eqb_ℤ (sigismember set sig) (pos 0)
      then say (was_not_blocked ∷ [])
      else pure tt

  abbrev pub block : Sigset → Cmd Process (Unit {0})
  block set p = ok tt (record p { mask = set })

  -- `main` of B2/Signal/main.c. The sets `new_set` and `old_set` are not initialised; `masked` is what
  -- the first call of `sigprocmask` returns. The second one reads the mask into `old_set`.
  unfoldable pub signal_main :
      (refused : Bool) → (masked : ℤ) → (new_set old_set : Sigset) → Cmd Process (Unit {0})
  signal_main refused masked new_set old_set = do
    handle refused sigint
    let new = sigaddset (emptied new_set) sigint
    old ←
        if eqb_ℤ masked (pos 0)
        then (do block new; say_blocked new sigint; λ p. ok p.mask p)
        else pure (emptied old_set)
    say (mask_is ∷ [])
    say ((print_set_bin S (some old)).0)
    hang

  -- `handle_th1` and `handle_th2` of B2/Thread/main.c, for SIGINT and SIGCHLD: `set` is not
  -- initialised, and `pending` is what `sigpending` leaves after 40 seconds.
  pub handle_th : (sig : ℕ) → (refused : Bool) → (set pending : Sigset) → Cmd Process (Unit {0})
  handle_th sig refused set pending = do
    handle refused sig
    λ p. ok tt (record p { mask = sig_block p.mask (sigaddset (emptied set) sig) })
    say (print_sigset S pending)

  -- The branch of the parent of B2/Process/BT1_SIGCHILD/main.c: `waited` is what `wait` returns,
  -- unless the handler of SIGCHLD has ended the program before.
  unfoldable pub parent :
      (refused : Bool) → (masked : ℤ) → (new_set : Sigset) → (waited : ℤ) → Cmd Process (Unit {0})
  parent refused masked new_set waited = do
    handle refused sigchld
    let new = emptied new_set
    if eqb_ℤ masked (pos 0) then (do block new; say_blocked new sigchld) else pure tt
    if eqb_ℤ waited (negsuc 0) then say (wait_failed ∷ []) else pure tt

-- What `main` of B2/Thread/main.c does: it starts its threads, sends them signals, and waits.
pub data Act : Type 0 where
  created : (thread : ℕ) → Act
  said : Line → Act
  slept : (seconds : ℕ) → Act
  killed : (thread sig : ℕ) → Act
  joined : (thread : ℕ) → Act

-- `main` of B2/Thread/main.c: the status that it returns, and its calls in order. `ret1` and `ret2`
-- are what the two calls of `pthread_create` return.
unfoldable pub thread_main : (S : SignalSets) → (ret1 ret2 : ℤ) → ℤ × List Act
thread_main S ret1 ret2 =
    if eqb_ℤ ret1 (pos 0)
    then (if eqb_ℤ ret2 (pos 0)
        then (
          pos 0,
          created 1
              ∷ created 2
              ∷ slept 5
              ∷ killed 1 S.sigint
              ∷ killed 2 S.sigchld
              ∷ slept 2
              ∷ killed 1 S.sigint
              ∷ joined 1
              ∷ joined 2
              ∷ [],
        )
        else (negsuc 0, created 1 ∷ created 2 ∷ said (create_failed ret2) ∷ []))
    else (negsuc 0, created 1 ∷ said (create_failed ret1) ∷ [])

module _ (S : SignalSets) where
  open S use {Sigset, sigemptyset, sigaddset, sig_block, nsig}

  -- A thread of B2/Thread/main.c whose handler is installed blocks its signal beside those that were
  -- blocked before, and prints one line for each pending signal below NSIG, in their order, or that
  -- there is none.
  pub handle_th-listed :
      (sig : ℕ) (set pending : Sigset) (p : Process S)
      → handle_th S sig false set pending p
        ≡ ok tt (record {
          mask = sig_block p.mask (sigaddset ((sigemptyset set).1) sig);
          handled = sig ∷ p.handled;
          out = p.out ++ listed S (members S (nsig - 1) pending 1);
        })
  unfolding handle_th
  handle_th-listed sig set pending p = rw (print_sigset-listed S pending) refl
