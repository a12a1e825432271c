-- ===== src/Exercises/Tests.antt =====
-- The exercises at small inputs: sets of signals as lists, with NSIG 4.
use btvnlinux.Prelude.{
  ℕ, ◌<◌, ◌≤◌, ◌≡◌, refl, Bool, false, some, List, [], ◌∷◌, ◌==◌, ◌||◌, ltb, if◌then◌else◌, arith,
}
use btvnlinux.Prelude.Int.{ℤ, pos, negsuc, eqb_ℤ}
use btvnlinux.Exercises.Signals.{SignalSets}
use btvnlinux.Exercises.PrintSet.{Printed, print_set_bin, print_set_bin-Printed}

abbrev among : ℕ → List ℕ → Bool
among n [] = false
among n (m ∷ ms) = (n == m) || among n ms

abbrev is_member : List ℕ → ℕ → ℤ
is_member ms n = if ltb n 4 then (if among n ms then pos 1 else pos 0) else negsuc 0

abbrev sets : SignalSets
sets = record {
  Sigset = List ℕ;
  sigismember = is_member;
  sigemptyset = λ ms. (pos 0, []);
  sigaddset = λ ms n. n ∷ ms;
  sig_block = λ old ms. ms;
  nsig = 4;
  sigint = 2;
  sigchld = 3;
}

is_member-valid : (ms : List ℕ) (n : ℕ) → 1 ≤ n → n < 4 → eqb_ℤ (is_member ms n) (negsuc 0) ≡ false
is_member-valid ms n le lt = ground arith

print_set_bin-Printed_example : Printed sets (2 ∷ []) (print_set_bin sets (some (2 ∷ [])))
print_set_bin-Printed_example =
    print_set_bin-Printed sets (2 ∷ []) (omega arith) (is_member-valid (2 ∷ [])) refl refl
