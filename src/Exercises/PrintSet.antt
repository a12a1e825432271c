-- ===== src/Exercises/PrintSet.antt =====
-- The two functions that print a set of signals: `print_sigset` of B2/Thread/main.c and
-- `print_set_bin` of B2/Signal/main.c.
use btvnlinux.Prelude.{
  ℕ, zero, suc, ◌+◌, ◌-◌, ◌<◌, ◌≤◌, ◌≡◌, refl, ap, ◌∙◌, Bool, false, not, Option, none, some, inl,
  inr, Bool-cases, List, [], ◌∷◌, ◌++◌, append_assoc, append-nil, length, ◌==◌, if◌then◌else◌,
  arith,
}
use btvnlinux.Prelude.Int.{pos, negsuc, eqb_ℤ}
use btvnlinux.Exercises.Signals.{
  SignalSets, Line, heading, member, no_members, null_parameter, no_such_signal, digit, said_empty,
  said_non_empty,
}

module _ (S : SignalSets) where
  open S use {Sigset, sigismember, sigemptyset, nsig}

  -- `if (sigismember(set, sig))`
  abbrev is_member : Sigset → ℕ → Bool
  is_member set sig = not (eqb_ℤ (sigismember set sig) (pos 0))

  -- The loop of `print_sigset`, with the rounds that are left: how many members it has counted, and
  -- what is printed.
  pub member_loop : (rounds : ℕ) → Sigset → (sig cnt : ℕ) → List Line → ℕ × List Line
  member_loop zero set sig cnt out = (cnt, out)
  member_loop (suc k) set sig cnt out =
      let counted = member_loop k set (suc sig) (suc cnt) (out ++ member sig ∷ []) in
      let passed = member_loop k set (suc sig) cnt out in
      if is_member set sig then counted else passed

  -- `print_sigset`
  pub print_sigset : Sigset → List Line
  unfolding member_loop
  print_sigset set =
      let (cnt, out) = member_loop (nsig - 1) set 1 0 (heading ∷ []) in
      if cnt == 0 then out ++ no_members ∷ [] else out

  -- The members from `sig` on, among so many signals.
  abbrev pub members : (rounds : ℕ) → Sigset → (sig : ℕ) → List ℕ
  members zero set sig = []
  members (suc k) set sig =
      let rest = members k set (suc sig) in if is_member set sig then sig ∷ rest else rest

  abbrev pub lines : List ℕ → List Line
  lines [] = []
  lines (n ∷ ns) = member n ∷ lines ns

  member_loop-members :
      (k : ℕ) (set : Sigset) (sig cnt : ℕ) (out : List Line)
      → member_loop k set sig cnt out
        ≡ (cnt + length (members k set sig), out ++ lines (members k set sig))
  unfolding member_loop
  member_loop-members zero set sig cnt out = rw (append-nil out) (ap (λ n. (n, out)) (omega arith))
  member_loop-members (suc k) set sig cnt out = elim (Bool-cases (is_member set sig)) [
    | inl e ↦ rw e (
        member_loop-members k set (suc sig) (suc cnt) (out ++ member sig ∷ [])
        ∙ rw (append_assoc out (member sig ∷ []) (lines (members k set (suc sig))))
            (ap (λ n. (n, out ++ member sig ∷ lines (members k set (suc sig)))) (omega arith)))
    | inr e ↦ rw e (member_loop-members k set (suc sig) cnt out)
  ]

  -- What is printed of the members of a set.
  abbrev pub listed : List ℕ → List Line
  listed [] = heading ∷ no_members ∷ []
  listed (n ∷ ns) = heading ∷ lines (n ∷ ns)

  printed-listed :
      (ns : List ℕ)
      → (if length ns == 0 then (heading ∷ lines ns) ++ no_members ∷ [] else heading ∷ lines ns)
        ≡ listed ns
  printed-listed [] = refl
  printed-listed (n ∷ ns) = ground arith

  -- `print_sigset` prints one line for each member of the set among the signals from 1 up to NSIG,
  -- NSIG excluded, in their order, or says that there is none.
  pub print_sigset-listed : (set : Sigset) → print_sigset set ≡ listed (members (nsig - 1) set 1)
  unfolding print_sigset
  print_sigset-listed set =
      let count : 0 + length (members (nsig - 1) set 1) ≡ length (members (nsig - 1) set 1) =
        omega arith in
      rw (member_loop-members (nsig - 1) set 1 0 (heading ∷ []), count)
        (printed-listed (members (nsig - 1) set 1))

  -- What `print_set_bin` prints of one signal.
  abbrev pub bit : Sigset → ℕ → Line
  bit set sig =
      let res = sigismember set sig in
      if eqb_ℤ res (negsuc 0) then no_such_signal sig else digit res

  -- The loop of `print_set_bin`, with the rounds that are left.
  pub bit_loop : (rounds : ℕ) → Sigset → (sig : ℕ) → List Line
  bit_loop zero set sig = []
  bit_loop (suc k) set sig = bit set sig ∷ bit_loop k set (suc sig)

  -- `print_set_bin`, of a set that the pointer is to, none for NULL: what it prints, and the set that
  -- it leaves.
  pub print_set_bin : Option Sigset → List Line × Option Sigset
  unfolding bit_loop
  print_set_bin none = (null_parameter ∷ [], none)
  print_set_bin (some set) =
      let (res, left) = sigemptyset set in
      (
        bit_loop nsig set 1 ++ (if eqb_ℤ res (pos 0) then said_non_empty else said_empty) ∷ [],
        some left,
      )

  -- The digits of the signals from `sig` on.
  abbrev pub digits : (rounds : ℕ) → Sigset → (sig : ℕ) → List Line
  digits zero set sig = []
  digits (suc k) set sig = digit (sigismember set sig) ∷ digits k set (suc sig)

  bit_loop-digits :
      (k : ℕ) (set : Sigset) (sig end : ℕ)
      → end ≡ k + sig
      → ((n : ℕ) → sig ≤ n → n < end → eqb_ℤ (sigismember set n) (negsuc 0) ≡ false)
      → sigismember set end ≡ negsuc 0
      → bit_loop (suc k) set sig ≡ digits k set sig ++ no_such_signal end ∷ []
  unfolding bit_loop
  bit_loop-digits zero set sig end e valid bad =
      let same : sig ≡ end = omega arith in rw (same, bad) refl
  bit_loop-digits (suc k) set sig end e valid bad = rw (valid sig (omega arith) (omega arith)) (
      ap (λ more. digit (sigismember set sig) ∷ more)
        (bit_loop-digits k set (suc sig) end (omega arith) (λ n le lt. valid n (omega arith) lt)
          bad))

  -- What `print_set_bin` prints and leaves.
  abbrev pub Printed : Sigset → List Line × Option Sigset → Type 0
  Printed set (out, left) =
      (out ≡ digits (nsig - 1) set 1 ++ no_such_signal nsig ∷ said_non_empty ∷ [])
      × (left ≡ some (sigemptyset set).1)

  -- `print_set_bin` prints the digit of each signal from 1 up to NSIG, NSIG excluded, then a message
  -- for NSIG, which is no signal, and then that the set is not empty, whether it was or not; it
  -- leaves the set as `sigemptyset` does. The conditions are that there is a signal, that
  -- `sigismember` fails of NSIG and of no signal below, and that `sigemptyset` succeeds.
  pub print_set_bin-Printed :
      (set : Sigset)
      → 1 ≤ nsig
      → ((n : ℕ) → 1 ≤ n → n < nsig → eqb_ℤ (sigismember set n) (negsuc 0) ≡ false)
      → sigismember set nsig ≡ negsuc 0
      → (sigemptyset set).0 ≡ pos 0
      → Printed set (print_set_bin (some set))
  unfolding print_set_bin
  print_set_bin-Printed set some_signal valid bad ok_empty =
      let rounds : nsig ≡ suc (nsig - 1) = omega arith in
      let loop =
        ap (λ k. bit_loop k set 1) rounds
        ∙ bit_loop-digits (nsig - 1) set 1 nsig (omega arith) valid bad in
      (
        rw (loop, ok_empty)
            (append_assoc (digits (nsig - 1) set 1) (no_such_signal nsig ∷ [])
              (said_non_empty ∷ [])),
        refl,
      )
