-- ===== src/Dplist/Defs.antt =====
-- The state and the functions of lib/dplist.c.
use btvnlinux.Prelude.{
  ℕ, zero, suc, ◌+◌, Bool, true, false, Option, none, some, ◌==◌, ◌||◌, if◌then◌else◌, not,
}
use btvnlinux.Prelude.Int.{ℤ, pos, negsuc}
use btvnlinux.Memory.{
  Ptr, null, Heap, Fault, Cmd, ok, pure, fail, hang, assert, ◌>>=◌, ◌>>◌, object, expect, write,
}

-- `struct dplist_node`
pub record Node : Type 0 where
  pub prev : Ptr
  pub next : Ptr
  pub element : Ptr

abbrev pub node : Ptr → Ptr → Ptr → Node
node p q e = record { prev = p; next = q; element = e }

-- The store: the list nodes, and the elements that the callbacks work on.
pub record World (E : Type 0) : Type 0 where
  pub nodes : Heap Node
  pub elements : Heap E

abbrev pub world : {E : Type 0} → Heap Node → Heap E → World E
world h els = record { nodes = h; elements = els }

-- `struct dplist`. The callback that frees an element is given the pointer that its argument
-- points to.
pub record Dplist (E : Type 0) : Type 0 where
  pub head : Ptr
  pub element_copy : Ptr → Cmd (World E) Ptr
  pub element_free : Ptr → Cmd (World E) (Unit {0})
  pub element_compare : Ptr → Ptr → Cmd (World E) ℤ

-- What `malloc` returns for a node: an address and what its storage happens to hold.
pub record Block : Type 0 where
  pub address : Ptr
  pub garbage : Node

abbrev pub is_positive : ℤ → Bool
is_positive (pos zero) = false
is_positive (pos (suc n)) = true
is_positive (negsuc n) = false

abbrev pub is_negative : ℤ → Bool
is_negative (pos n) = false
is_negative (negsuc n) = true

abbrev pub is_zero : ℤ → Bool
is_zero (pos zero) = true
is_zero (pos (suc n)) = false
is_zero (negsuc n) = false

abbrev pub at_most_zero : ℤ → Bool
at_most_zero (pos zero) = true
at_most_zero (pos (suc n)) = false
at_most_zero (negsuc n) = true

-- The rounds of a loop that counts from 0 up to `index`.
abbrev pub rounds : ℤ → ℕ
rounds (pos n) = n
rounds (negsuc n) = 0

module _ {E : Type 0} where
  unfoldable pub load : Ptr → Cmd (World E) Node
  load p w = expect (object w.nodes p) w

  -- The raw write of a node, or of free storage.
  unfoldable pub store : Ptr → Option Node → Cmd (World E) (Unit {0})
  store p c w = ok tt (record w { nodes = write w.nodes p c })

  -- `p->next = q`, `p->prev = q` and `p->element = e`
  unfoldable pub set_next : Ptr → Ptr → Cmd (World E) (Unit {0})
  unfolding load store
  set_next p q = do n ← load p; store p (some (record n { next = q }))

  unfoldable pub set_prev : Ptr → Ptr → Cmd (World E) (Unit {0})
  unfolding load store
  set_prev p q = do n ← load p; store p (some (record n { prev = q }))

  unfoldable pub set_element : Ptr → Ptr → Cmd (World E) (Unit {0})
  unfolding load store
  set_element p e = do n ← load p; store p (some (record n { element = e }))

  unfoldable pub free : Ptr → Cmd (World E) (Unit {0})
  unfolding load store
  free p = load p >> store p none

  -- `malloc(sizeof(dplist_node_t))`; NULL leaves the heap as it is.
  unfoldable pub malloc : Block → Cmd (World E) Ptr
  unfolding store
  malloc b =
      if b.address == null then pure null else do store b.address (some b.garbage); pure b.address

  -- `assert(list != NULL)`, and the list it points to.
  abbrev pub assert_list : Option (Dplist E) → Cmd (World E) (Dplist E)
  assert_list none = fail Fault.assert_failed
  assert_list (some l) = pure l

  -- `dpl_create`: `fresh` is what `malloc` returns for the struct.
  unfoldable pub create :
      (fresh : Ptr)
      → (Ptr → Cmd (World E) Ptr)
      → (Ptr → Cmd (World E) (Unit {0}))
      → (Ptr → Ptr → Cmd (World E) ℤ)
      → Cmd (World E) (Dplist E)
  create fresh copy release compare = do
    assert (not (fresh == null))
    pure (record {
      head = null;
      element_copy = copy;
      element_free = release;
      element_compare = compare;
    })

  -- The loop of `dpl_size`.
  unfoldable pub size_loop : ℕ → Ptr → ℕ → Cmd (World E) ℕ
  size_loop zero pt count = hang
  size_loop (suc k) pt count =
      if pt == null then pure count else do n ← load pt; size_loop k n.next (count + 1)

  -- `dpl_size`
  unfoldable pub size : (fuel : ℕ) → Option (Dplist E) → Cmd (World E) ℕ
  unfolding size_loop
  size fuel list = do
    l ← assert_list list
    if l.head == null then pure 0 else size_loop fuel l.head 1

  -- `while ((pt != NULL) && (pos < index))`, with `index - pos` rounds left.
  unfoldable pub advance : ℕ → Ptr → Cmd (World E) Ptr
  advance zero pt = pure pt
  advance (suc k) pt = if pt == null then pure pt else do n ← load pt; advance k n.next

  -- `dpl_get_reference_at_index`
  unfoldable pub get_reference_at_index : Option (Dplist E) → ℤ → Cmd (World E) Ptr
  unfolding advance
  get_reference_at_index list index = do
    l ← assert_list list
    if at_most_zero index || l.head == null then pure l.head else advance (rounds index) l.head

  -- `while (pt != NULL) pt = pt->next`
  unfoldable pub run_off : ℕ → Ptr → Cmd (World E) Ptr
  run_off zero pt = hang
  run_off (suc k) pt = if pt == null then pure pt else do n ← load pt; run_off k n.next

  -- `dpl_get_element_at_index`
  unfoldable pub get_element_at_index : (fuel : ℕ) → Option (Dplist E) → ℤ → Cmd (World E) Ptr
  unfolding run_off
  get_element_at_index fuel list index = do
    l ← assert_list list
    if l.head == null then pure null else do
      pt ← if at_most_zero index then pure l.head else run_off fuel l.head
      n ← load pt
      pure n.element

  -- The loop of `dpl_get_index_of_element`.
  unfoldable pub find_index :
      ℕ → (Ptr → Ptr → Cmd (World E) ℤ) → (element pt : Ptr) → ℕ → Cmd (World E) ℕ
  find_index zero compare element pt i = hang
  find_index (suc k) compare element pt i = if pt == null then pure i else do
    n ← load pt
    c ← compare element n.element
    if is_zero c then pure i else find_index k compare element n.next (i + 1)

  -- `dpl_get_index_of_element`
  unfoldable pub get_index_of_element : (fuel : ℕ) → Option (Dplist E) → Ptr → Cmd (World E) ℤ
  unfolding find_index
  get_index_of_element fuel list element = do
    l ← assert_list list
    if l.head == null
        then pure (negsuc 0)
        else do i ← find_index fuel l.element_compare element l.head 0; pure (pos i)

  -- `while (pt != NULL) { if (pt == reference) return pt->element; }`, whose body leaves `pt`.
  unfoldable pub spin : ℕ → Ptr → Ptr → Cmd (World E) Ptr
  spin zero reference pt = hang
  spin (suc k) reference pt =
      if pt == null
      then pure null
      else (if pt == reference then (do n ← load pt; pure n.element) else spin k reference pt)

  -- `dpl_get_element_at_reference`
  unfoldable pub get_element_at_reference : (fuel : ℕ) → Option (Dplist E) → Ptr → Cmd (World E) Ptr
  unfolding run_off spin
  get_element_at_reference fuel list reference = do
    l ← assert_list list
    if l.head == null
        then pure null
        else (if reference == null
            then (do pt ← run_off fuel l.head; n ← load pt; pure n.element)
            else spin fuel reference l.head)
