-- ===== src/Memory/Returns.antt =====
-- Total correctness of a run: it ends with no fault, within its fuel, in a state of which the
-- postcondition holds.
use mathlib.Core.Path.{subst}
use btvnlinux.Prelude.{◌≡◌, refl}
use btvnlinux.Memory.{Run, ok, fault, Fault, out_of_fuel, Cmd, and_then, resume}

pub data Returns {S A : Type 0} (P : A → S → Type 0) : Run S A → Type 0 where
  returns : {a : A} {s : S} → P a s → Returns P (ok a s)

module _ {S A : Type 0} {P : A → S → Type 0} where
  pub bind :
      {B : Type 0} {Q : B → S → Type 0} {r : Run S A} {k : A → Cmd S B}
      → Returns P r
      → ((a : A) (s : S) → P a s → Returns Q (k a s))
      → Returns Q (and_then r k)
  bind (returns p) next = next _ _ p

  pub mono :
      {Q : A → S → Type 0} {r : Run S A}
      → Returns P r
      → ((a : A) (s : S) → P a s → Q a s)
      → Returns Q r
  mono (returns p) weaken = returns (weaken _ _ p)

-- What every continuation gives.
pub and_then-eq :
    {S A B : Type 0} {P : A → S → Type 0} {r : Run S A} {k : A → Cmd S B} {result : Run S B}
    → Returns P r
    → ((a : A) (s : S) → P a s → k a s ≡ result)
    → and_then r k ≡ result
and_then-eq (returns p) next = next _ _ p

-- A run on a part of the state.
pub resumed :
    {S T A : Type 0} {P : A → T → Type 0} {r : Run T A} (put : T → S)
    → Returns P r
    → Returns (λ a s. (t : T) × (s ≡ put t) × P a t) (resume put r)
resumed put (returns p) = returns (_, refl, p)

-- What the run returns.
pub outcome :
    {S A : Type 0} {P : A → S → Type 0} {r : Run S A}
    → Returns P r
    → (a : A) × (s : S) × (r ≡ ok a s) × P a s
outcome (returns p) = (_, _, refl, p)

abbrev At : {S A : Type 0} → (A → S → Type 0) → Run S A → Type 0
At P (ok a s) = P a s
At P (fault e) = Unit {0}
At P out_of_fuel = Unit {0}

-- What the run is known to return.
pub holds :
    {S A : Type 0} {P : A → S → Type 0} {r : Run S A} {a : A} {s : S}
    → Returns P r
    → r ≡ ok a s
    → P a s
holds {P} (returns p) e = subst (λ r. At P r) e p

-- A run that does not end in a result: it fails, or its fuel runs out.
abbrev pub NeverReturns : {S A : Type 0} → Run S A → Type 0
NeverReturns (ok a s) = ⊥
NeverReturns (fault e) = Unit {0}
NeverReturns out_of_fuel = Unit {0}

pub never :
    {S A B : Type 0} (r : Run S A) (k : A → Cmd S B)
    → ((a : A) (s : S) → NeverReturns (k a s))
    → NeverReturns (and_then r k)
never (ok a s) k next = next a s
never (fault e) k next = tt
never out_of_fuel k next = tt

-- The same where the first run is on a part of the state.
pub never_resume :
    {S T A B : Type 0} (put : T → S) (r : Run T A) (k : A → Cmd S B)
    → ((a : A) (t : T) → NeverReturns (k a (put t)))
    → NeverReturns (and_then (resume put r) k)
never_resume put (ok a t) k next = next a t
never_resume put (fault e) k next = tt
never_resume put out_of_fuel k next = tt

-- A run on a part of the state that does not return.
pub never_put :
    {S T A : Type 0} (put : T → S) (r : Run T A) → NeverReturns r → NeverReturns (resume put r)
never_put put (ok a t) hung = hung
never_put put (fault e) hung = tt
never_put put out_of_fuel hung = tt

-- Behind a run that does not return nothing is run.
pub never_first :
    {S A B : Type 0} (r : Run S A) (k : A → Cmd S B) → NeverReturns r → NeverReturns (and_then r k)
never_first (ok a s) k hung = absurd hung
never_first (fault e) k hung = tt
never_first out_of_fuel k hung = tt

-- The same for the first of three runs, on a part of the state.
pub never_resume_first :
    {S T A B C : Type 0} (put : T → S) (r : Run T A) (k : A → Cmd S B) (next : B → Cmd S C)
    → ((a : A) (t : T) → NeverReturns (and_then (k a (put t)) next))
    → NeverReturns (and_then (and_then (resume put r) k) next)
never_resume_first put (ok a t) k next all = all a t
never_resume_first put (fault e) k next all = tt
never_resume_first put out_of_fuel k next all = tt

-- Partial correctness: the postcondition holds where the run returns.
pub data Ensures {S A : Type 0} (P : A → S → Type 0) : Run S A → Type 0 where
  ensured : {a : A} {s : S} → P a s → Ensures P (ok a s)
  failed : {e : Fault} → Ensures P (fault e)
  hung : Ensures P out_of_fuel

-- What the run is known to return.
pub ensures_holds :
    {S A : Type 0} {P : A → S → Type 0} {r : Run S A} {a : A} {s : S}
    → Ensures P r
    → r ≡ ok a s
    → P a s
ensures_holds {P} (ensured p) e = subst (λ r. At P r) e p
ensures_holds {P} failed e = absurd (cc e)
ensures_holds {P} hung e = absurd (cc e)

pub ensures_bind :
    {S A B : Type 0} {P : A → S → Type 0} {Q : B → S → Type 0} {r : Run S A} {k : A → Cmd S B}
    → Ensures P r
    → ((a : A) (s : S) → P a s → Ensures Q (k a s))
    → Ensures Q (and_then r k)
ensures_bind (ensured p) next = next _ _ p
ensures_bind failed next = failed
ensures_bind hung next = hung

pub ensures_mono :
    {S A : Type 0} {P Q : A → S → Type 0} {r : Run S A}
    → Ensures P r
    → ((a : A) (s : S) → P a s → Q a s)
    → Ensures Q r
ensures_mono (ensured p) weaken = ensured (weaken _ _ p)
ensures_mono failed weaken = failed
ensures_mono hung weaken = hung

pub ensures_resumed :
    {S T A : Type 0} {P : A → S → Type 0} (put : T → S) (r : Run T A)
    → ((a : A) (t : T) → P a (put t))
    → Ensures P (resume put r)
ensures_resumed put (ok a t) all = ensured (all a t)
ensures_resumed put (fault e) all = failed
ensures_resumed put out_of_fuel all = hung

-- A run that cannot go on from where it may return does not return.
pub never_after :
    {S A B : Type 0} {P : A → S → Type 0} {r : Run S A} (k : A → Cmd S B)
    → Ensures P r
    → ((a : A) (s : S) → P a s → NeverReturns (k a s))
    → NeverReturns (and_then r k)
never_after k (ensured p) next = next _ _ p
never_after k failed next = tt
never_after k hung next = tt
