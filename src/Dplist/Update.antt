-- ===== src/Dplist/Update.antt =====
-- The functions of lib/dplist.c that change a list, and the search that shares their loop.
use btvnlinux.Prelude.{
  ℕ, zero, suc, Bool, true, false, Option, none, some, ◌==◌, if◌then◌else◌, not,
}
use btvnlinux.Prelude.Int.{ℤ, pos, leb_ℤ}
use btvnlinux.Memory.{Ptr, null, Fault, Cmd, pure, fail, hang, assert, ◌>>=◌, ◌>>◌}
use btvnlinux.Dplist.Defs.{
  World, Dplist, Block, is_positive, is_negative, is_zero, at_most_zero, rounds, load, set_next,
  set_prev, set_element, free, malloc, assert_list, size, get_reference_at_index, advance,
}

module _ {E : Type 0} where
  -- The branch of `dpl_insert_at_index` for an index of 0 or less. On an empty list the code says
  -- `list->head == pt`, which changes nothing.
  unfoldable pub insert_front : Dplist E → Ptr → Cmd (World E) (Dplist E)
  insert_front l pt =
      if l.head == null then (do set_next pt null; set_prev pt null; pure l) else (do
        set_prev l.head pt
        set_next pt l.head
        set_prev pt null
        pure (record l { head = pt }))

  -- The branch for a positive index, `pt1` being the node found there.
  unfoldable pub insert_at : (fuel : ℕ) → Dplist E → Ptr → ℤ → Cmd (World E) (Dplist E)
  insert_at fuel l pt index = do
    pt1 ← get_reference_at_index (some l) index
    assert (not (pt1 == null))
    n ← size fuel (some l)
    if leb_ℤ (pos n) index
        then (do set_next pt1 pt; set_prev pt pt1; set_next pt null; pure l)
        else (do
          set_next pt pt1
          n1 ← load pt1
          set_prev pt n1.prev
          set_next n1.prev pt
          set_prev pt1 pt
          pure l)

  -- `dpl_insert_at_index`. The last test is the assignment `insert_copy = true`, so the element is
  -- copied whatever the argument says.
  unfoldable pub insert_at_index :
      (fuel : ℕ)
      → Block
      → Option (Dplist E)
      → (element : Ptr) → ℤ
      → (insert_copy : Bool) → Cmd (World E) (Dplist E)
  unfolding insert_front insert_at
  insert_at_index fuel block list element index insert_copy = do
    l ← assert_list list
    pt ← malloc block
    l' ← if at_most_zero index then insert_front l pt else insert_at fuel l pt index
    copy ← l'.element_copy element
    set_element pt copy
    pure l'

  -- `if (free_element == true) (list->element_free)(&(pt->element))`
  unfoldable pub release : Dplist E → Bool → Ptr → Cmd (World E) (Unit {0})
  release l true pt = do n ← load pt; l.element_free n.element
  release l false pt = pure tt

  -- The branch of `dpl_remove_at_index` for an index of 0 or less. Its test is the assignment
  -- `list->head->next = NULL`, which is false, so the other branch runs on the changed node.
  unfoldable pub remove_front : Dplist E → Bool → Cmd (World E) (Dplist E)
  remove_front l free_element = do
    release l free_element l.head
    set_next l.head null
    n ← load l.head
    set_prev n.next null
    pure (record l { head = n.next })

  -- `pt->prev = pt->next = pt->element = NULL; free(pt);`
  unfoldable pub discard : Ptr → Cmd (World E) (Unit {0})
  discard pt = do set_element pt null; set_next pt null; set_prev pt null; free pt

  -- The branch for a positive index, `pt` being where the walk ended.
  unfoldable pub unlink : Dplist E → Bool → Ptr → Cmd (World E) (Dplist E)
  unlink l free_element pt = do
    release l free_element pt
    l' ← if pt == l.head then pure (record l { head = null }) else do
      n ← load pt
      if n.next == null
          then (do set_next n.prev null; pure l)
          else (do set_next n.prev n.next; set_prev n.next n.prev; pure l)
    discard pt
    pure l'

  -- `dpl_remove_at_index`
  unfoldable pub remove_at_index :
      Option (Dplist E) → ℤ → (free_element : Bool) → Cmd (World E) (Dplist E)
  remove_at_index list index free_element = do
    l ← assert_list list
    if l.head == null
        then pure l
        else (if at_most_zero index
            then remove_front l free_element
            else (do pt ← advance (rounds index) l.head; unlink l free_element pt))

  -- The loop of `dpl_free`.
  unfoldable pub free_loop : ℕ → Dplist E → Bool → Cmd (World E) (Dplist E)
  free_loop zero l free_element = hang
  free_loop (suc k) l free_element =
      if l.head == null
      then pure l
      else do l' ← remove_at_index (some l) (pos 0) free_element; free_loop k l' free_element

  -- `dpl_free`, given `*list`; the pointer is NULL afterwards.
  unfoldable pub free_list :
      (fuel : ℕ) → Option (Dplist E) → Bool → Cmd (World E) (Option (Dplist E))
  unfolding free_loop
  free_list fuel none free_element = fail Fault.segfault
  free_list fuel (some l) free_element = do l' ← free_loop fuel l free_element; pure none

  -- `while (pt->next != NULL && compare(new, pt->element) > 0) pt = pt->next;`
  unfoldable pub seek : ℕ → (Ptr → Ptr → Cmd (World E) ℤ) → (element pt : Ptr) → Cmd (World E) Ptr
  seek zero compare element pt = hang
  seek (suc k) compare element pt = do
    n ← load pt
    if n.next == null then pure pt else do
      c ← compare element n.element
      if is_positive c then seek k compare element n.next else pure pt

  -- The three ways in which `dpl_insert_sorted` links the new node in.
  unfoldable pub link_behind : Dplist E → (new pt : Ptr) → Cmd (World E) (Dplist E)
  link_behind l new pt = do set_next new null; set_prev new pt; set_next pt new; pure l

  unfoldable pub link_first : Dplist E → (new pt : Ptr) → Cmd (World E) (Dplist E)
  link_first l new pt = do
    set_prev new null
    set_next new pt
    set_prev pt new
    pure (record l { head = new })

  unfoldable pub link_before : Dplist E → (new pt : Ptr) → Cmd (World E) (Dplist E)
  link_before l new pt = do
    set_next new pt
    n ← load pt
    set_prev new n.prev
    set_next n.prev new
    set_prev pt new
    pure l

  -- The tests behind the loop of `dpl_insert_sorted`, in order, each with its own comparison.
  unfoldable pub link_first_or_before :
      Dplist E → (new pt element elem : Ptr) → Cmd (World E) (Dplist E)
  unfolding link_first link_before
  link_first_or_before l new pt element elem =
      if pt == l.head
      then (do
        c ← l.element_compare element elem
        if is_negative c then link_first l new pt else link_before l new pt)
      else link_before l new pt

  unfoldable pub place : Dplist E → (new pt element : Ptr) → Cmd (World E) (Dplist E)
  unfolding link_behind link_first_or_before
  place l new pt element = do
    n ← load pt
    if n.next == null
        then (do
          c ← l.element_compare element n.element
          if is_negative c
              then link_first_or_before l new pt element n.element
              else link_behind l new pt)
        else link_first_or_before l new pt element n.element

  -- `dpl_insert_sorted`
  unfoldable pub insert_sorted :
      (fuel : ℕ)
      → Block
      → Option (Dplist E)
      → (element : Ptr) → (insert_copy : Bool) → Cmd (World E) (Dplist E)
  insert_sorted fuel block list element insert_copy = do
    l ← assert_list list
    element' ← if insert_copy then l.element_copy element else pure element
    new ← malloc block
    set_element new element'
    if l.head == null
        then (do set_next new null; set_prev new null; pure (record l { head = new }))
        else (do pt ← seek fuel l.element_compare element' l.head; place l new pt element')

  -- The loop of `dpl_get_reference_of_element`.
  unfoldable pub seek_equal :
      ℕ → (Ptr → Ptr → Cmd (World E) ℤ) → (element pt : Ptr) → Cmd (World E) Ptr
  seek_equal zero compare element pt = hang
  seek_equal (suc k) compare element pt = do
    n ← load pt
    if n.next == null then pure pt else do
      c ← compare element n.element
      if is_zero c then pure pt else seek_equal k compare element n.next

  -- `dpl_get_reference_of_element`
  unfoldable pub get_reference_of_element :
      (fuel : ℕ) → Option (Dplist E) → (element : Ptr) → Cmd (World E) Ptr
  unfolding seek_equal
  get_reference_of_element fuel list element = do
    l ← assert_list list
    if l.head == null then pure null else do
      pt ← seek_equal fuel l.element_compare element l.head
      n ← load pt
      c ← l.element_compare element n.element
      pure (if is_zero c then pt else null)
