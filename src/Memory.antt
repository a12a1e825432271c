-- ===== src/Memory.antt =====
-- The C machine that the components run on: commands over a store, with the ways in which a run
-- can end. A store is a record of partial functions from addresses, one for each type of object.
pub mod Binary
pub mod Cells
pub mod Returns
pub mod Stream
use btvnlinux.Prelude.{ℕ, Bool, true, false, Option, none, some, ◌==◌, if◌then◌else◌}

-- An address; 0 is NULL.
abbrev pub Ptr : Type 0
Ptr = ℕ

abbrev pub null : Ptr
null = 0

-- How a run fails: an access through NULL or through an address that holds no object of that
-- type, a failed `assert`, `exit` called with a status, or a lock taken twice by its holder.
pub data Fault : Type 0 where
  segfault : Fault
  assert_failed : Fault
  exit : ℕ → Fault
  deadlock : Fault

pub data Run (S A : Type 0) : Type 0 where
  ok : A → S → Run S A
  fault : Fault → Run S A
  out_of_fuel : Run S A

abbrev pub Cmd : Type 0 → Type 0 → Type 0
Cmd S A = S → Run S A

abbrev pub pure : {S A : Type 0} → A → Cmd S A
pure a s = ok a s

abbrev pub fail : {S A : Type 0} → Fault → Cmd S A
fail e s = fault e

abbrev pub hang : {S A : Type 0} → Cmd S A
hang s = out_of_fuel

module _ {S A B : Type 0} where
  abbrev pub and_then : Run S A → (A → Cmd S B) → Run S B
  and_then (ok a s) k = k a s
  and_then (fault e) k = fault e
  and_then out_of_fuel k = out_of_fuel

  infixl 5 ◌>>=◌ ◌>>◌
  abbrev pub ◌>>=◌ : Cmd S A → (A → Cmd S B) → Cmd S B
  m >>= k = λ s. and_then (m s) k

  abbrev pub ◌>>◌ : Cmd S A → Cmd S B → Cmd S B
  m >> n = m >>= λ _. n

-- `assert(condition)`
abbrev pub assert : {S : Type 0} → Bool → Cmd S (Unit {0})
assert true = pure tt
assert false = fail Fault.assert_failed

-- The objects of one type: what each address holds.
abbrev pub Heap : Type 0 → Type 0
Heap N = Ptr → Option N

-- The heap with `c` at address `p`: `some n` is an object, `none` is free storage.
abbrev pub write : {N : Type 0} → Heap N → Ptr → Option N → Heap N
write h p c a = if a == p then c else h a

-- The object that `*p` reads; none for NULL and for storage that holds no object.
abbrev pub object : {N : Type 0} → Heap N → Ptr → Option N
object h p = if p == null then none else h p

-- A read of an object, which faults where there is none.
abbrev pub expect : {S N : Type 0} → Option N → Cmd S N
expect none = fail Fault.segfault
expect (some n) = pure n

-- A command on a part of the state.
abbrev pub resume : {S T A : Type 0} → (T → S) → Run T A → Run S A
resume put (ok a t) = ok a (put t)
resume put (fault e) = fault e
resume put out_of_fuel = out_of_fuel

abbrev pub zoom : {S T A : Type 0} → (S → T) → (S → T → S) → Cmd T A → Cmd S A
zoom get put m s = resume (put s) (m (get s))
