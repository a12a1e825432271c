-- ===== src/Exercises/Children.antt =====
-- The programs that start a process: B1/Process/Fork/main.c and B2/Process/BT2_EXECUTE/main.c.
use btvnlinux.Prelude.{
  ℕ, ◌≡◌, refl, ◌∙◌, ap, sym, arith, Bool, true, false, inl, inr, Bool-cases, List, [], ◌∷◌, ◌++◌,
  append_assoc, if◌then◌else◌,
}
use btvnlinux.Prelude.Int.{ℤ, pos, negsuc, eqb_ℤ, ltb_ℤ}

-- What `status` says of a child, by the first of WIFEXITED, WIFSIGNALED, WIFSTOPPED and WIFCONTINUED
-- that holds.
pub data Wait : Type 0 where
  exited : (code : ℕ) → Wait
  signalled : (sig : ℕ) → Wait
  stopped : (sig : ℕ) → Wait
  continued : Wait
  nothing_known : Wait

pub data Line : Type 0 where
  child_process : Line
  parent_process : Line
  terminated_normally : (code : ℕ) → Line
  killed_by : (sig : ℕ) → Line
  stopped_by : (sig : ℕ) → Line
  runs_normally : Line
  waitpid_failed : Line
  fork_failed : Line
  runs_test : Line

-- How a run ends: it is left running, or with a status, or as another program.
pub data End : Type 0 where
  running : End
  ended : (status : ℕ) → End
  became_test : End

-- What is printed of a child.
abbrev pub told : Wait → List Line
told (exited n) = terminated_normally n ∷ []
told (signalled n) = killed_by n ∷ []
told (stopped n) = stopped_by n ∷ []
told continued = runs_normally ∷ []
told nothing_known = []

-- The loop of the parent in B1/Process/Fork/main.c over what `waitpid` returns and writes to
-- `status`. The source tests `w`, which is declared nowhere and is read as `retv`.
pub wait_loop : List (ℤ × Wait) → List Line → List Line × End
wait_loop [] out = (out, running)
wait_loop ((retv, status) ∷ rs) out =
    let seen = wait_loop rs (out ++ told status) in
    let rest = wait_loop rs out in
    if ltb_ℤ (pos 0) retv
    then seen
    else if eqb_ℤ retv (negsuc 0)
    then (out ++ waitpid_failed ∷ [], ended 1)
    else rest

-- `main` of B1/Process/Fork/main.c, in the process that `fork` returns `pid` in.
pub fork_main : (pid : ℤ) → List (ℤ × Wait) → List Line × End
unfolding wait_loop
fork_main pid rs =
    if ltb_ℤ pid (pos 0)
    then (fork_failed ∷ [], ended 1)
    else if eqb_ℤ pid (pos 0)
    then (child_process ∷ [], running)
    else wait_loop rs (parent_process ∷ [])

-- `main` of B2/Process/BT2_EXECUTE/main.c; `executed` tells whether `execv` succeeds.
unfoldable pub execute_main : (pid : ℤ) → (executed : Bool) → List Line × End
execute_main pid executed =
    if eqb_ℤ pid (pos 0)
    then (child_process ∷ runs_test ∷ [], if executed then became_test else ended 0)
    else if ltb_ℤ (pos 0) pid
    then (parent_process ∷ [], running)
    else (fork_failed ∷ [], ended 0)

-- Every change of the child is told, in order, up to the failure.
abbrev pub changes : List (ℤ × Wait) → List Line
changes [] = []
changes ((retv, status) ∷ rs) =
    let more = changes rs in if ltb_ℤ (pos 0) retv then told status ++ more else more

-- `waitpid` did not fail.
abbrev pub AllGood : List (ℤ × Wait) → Type 0
AllGood [] = Unit {0}
AllGood ((retv, status) ∷ rs) = (eqb_ℤ retv (negsuc 0) ≡ false) × AllGood rs

wait_loop-changes :
    (rs more : List (ℤ × Wait)) (status : Wait) (out : List Line)
    → AllGood rs
    → wait_loop (rs ++ (negsuc 0, status) ∷ more) out
      ≡ (out ++ (changes rs ++ waitpid_failed ∷ []), ended 1)
unfolding wait_loop
wait_loop-changes [] more status out good = refl
wait_loop-changes ((retv, s) ∷ rs) more status out (fine, good) =
    elim (Bool-cases (ltb_ℤ (pos 0) retv)) [
      | inl e ↦ rw e (
          wait_loop-changes rs more status (out ++ told s) good
          ∙ ap (λ ls. (ls, ended 1))
              (append_assoc out (told s) (changes rs ++ waitpid_failed ∷ [])
                ∙ ap (λ ls. out ++ ls)
                    (sym (append_assoc (told s) (changes rs) (waitpid_failed ∷ [])))))
      | inr e ↦ rw (e, fine) (wait_loop-changes rs more status out good)
    ]

positive :
    (pid : ℤ) → ltb_ℤ (pos 0) pid ≡ true → (ltb_ℤ pid (pos 0) ≡ false) × (eqb_ℤ pid (pos 0) ≡ false)
positive (pos n) e = ground arith
positive (negsuc n) e = ground arith

-- The parent tells every change of its child that `waitpid` returns, in order, and goes on for ever
-- until `waitpid` fails; then it ends with status 1.
pub fork_main-changes :
    (pid : ℤ) (rs more : List (ℤ × Wait)) (status : Wait)
    → ltb_ℤ (pos 0) pid ≡ true
    → AllGood rs
    → fork_main pid (rs ++ (negsuc 0, status) ∷ more)
      ≡ (parent_process ∷ changes rs ++ waitpid_failed ∷ [], ended 1)
unfolding fork_main
fork_main-changes pid rs more status parent good =
    let (not_less, not_zero) = positive pid parent in
    rw (not_less, not_zero) (wait_loop-changes rs more status (parent_process ∷ []) good)
