-- ===== src/Sbuffer/Refine.antt =====
-- The buffer against its specification, a first-in first-out queue of data.
use btvnlinux.Prelude.{
  ◌≡◌, refl, ◌≢◌, true, Option, none, some, List, [], ◌∷◌, ◌++◌, arith, ◌==◌, if◌then◌else◌,
  Bool-cases, inl, inr,
}
use btvnlinux.Memory.{Ptr, null, Heap, Cmd, ok, pure, ◌>>=◌}
use btvnlinux.Memory.Cells.{Cells, contents, contents-append, ◌∉◌}
use btvnlinux.Memory.Returns
use btvnlinux.Memory.Returns.{Returns, returns}
use btvnlinux.Sbuffer.{Node, Sbuffer, Status, failure, success, no_data, remove, insert}
use btvnlinux.Sbuffer.Queue.{IsBuffer}
use btvnlinux.Sbuffer.Step.{insert-snoc, remove-cons, remove-nil}

-- A call of a client. An insertion carries what `malloc` returns for its node.
pub data Op (D : Type 0) : Type 0 where
  put : Ptr → D → Op D
  get : Op D

module _ {D : Type 0} where
  -- The specification: a queue's answers, and the queue that is left. An insertion fails exactly
  -- if there is no storage for it.
  unfoldable pub serve : List D → List (Op D) → List (Status × Option D) × List D
  serve q [] = ([], q)
  serve q (put p d ∷ ops) =
      let (rs, q') = serve (if p == null then q else q ++ d ∷ []) ops in
      ((if p == null then failure else success, none) ∷ rs, q')
  serve [] (get ∷ ops) = let (rs, q') = serve [] ops in ((no_data, none) ∷ rs, q')
  serve (d ∷ q) (get ∷ ops) = let (rs, q') = serve q ops in ((success, some d) ∷ rs, q')

  -- The same calls on the buffer in memory.
  pub run :
      List (Op D) → Option Sbuffer → Cmd (Heap (Node D)) (List (Status × Option D) × Option Sbuffer)
  run [] b = pure ([], b)
  run (put p d ∷ ops) b = do
    (s, b') ← insert p b d
    (rs, b'') ← run ops b'
    pure ((s, none) ∷ rs, b'')
  run (get ∷ ops) b = do (s, o, b') ← remove b; (rs, b'') ← run ops b'; pure ((s, o) ∷ rs, b'')

-- What `malloc` is relied on for: it returns NULL or the address of no node in use. The cells are
-- those of the buffer when the calls are made.
abbrev pub IsFresh : {D : Type 0} → Cells D → List (Op D) → Type 0
IsFresh cs [] = Unit {0}
IsFresh cs (put p d ∷ ops) =
    (p ≢ null → p ∉ cs) × IsFresh (if p == null then cs else cs ++ (p, d) ∷ []) ops
IsFresh [] (get ∷ ops) = IsFresh [] ops
IsFresh (c ∷ cs) (get ∷ ops) = IsFresh cs ops

module _ {D : Type 0} where
  -- The run gives the queue's answers, and leaves a buffer that holds the queue's data.
  abbrev pub Serves :
      List D → List (Op D) → List (Status × Option D) × Option Sbuffer → Heap (Node D) → Type 0
  Serves q ops (rs, b) g =
      (rs ≡ (serve q ops).0)
      × (b' : Sbuffer) × (cs : Cells D) × (b ≡ some b')
      × IsBuffer g b' cs
      × (contents cs ≡ (serve q ops).1)

  insert-null :
      (h : Heap (Node D)) (p : Ptr) (b : Sbuffer) (d : D)
      → (p == null) ≡ true
      → insert p (some b) d h ≡ ok (failure, some b) h
  unfolding insert
  insert-null h p b d e = rw e

  -- From a buffer that is linked as it should be, any sequence of insertions and removals runs
  -- without a fault, answers as a first-in first-out queue does, and leaves a buffer that is linked
  -- as it should be and holds the data that are left in the queue, if `malloc` returns NULL or the
  -- address of no node in use.
  pub run_refines :
      (ops : List (Op D)) (h : Heap (Node D)) (b : Sbuffer) (cs : Cells D)
      → IsFresh cs ops
      → IsBuffer h b cs
      → Returns (Serves (contents cs) ops) (run ops (some b) h)
  unfolding run serve
  run_refines [] h b cs fresh is = returns (refl, b, cs, refl, is, refl)
  run_refines (put p d ∷ ops) h b cs fresh is = elim (Bool-cases (p == null)) [
    | inl full ↦ rw (insert-null h p b d full) (
        Returns.bind (run_refines ops h b cs (rw full at fresh.1) is)
          λ (rs, b') g (e, q, ds, eb, is', ec).
            returns ((rw (e, full)), q, ds, eb, is', (rw full ec)))
    | inr room ↦
        let ne : p ≢ null = ground arith in
        (Returns.bind (insert-snoc h p d b cs ne (is.owned p (fresh.0 ne)) is)
          λ (s, b') g (es, q, eq, is').
            rw (es, eq)
              (Returns.bind (run_refines ops g q (cs ++ (p, d) ∷ []) (rw room at fresh.1) is')
                λ (rs, b') g (e, q, ds, eb, is', ec). returns (
                  (rw (room, e, contents-append cs ((p, d) ∷ []))),
                  q,
                  ds,
                  eb,
                  is',
                  (rw (room, ec, contents-append cs ((p, d) ∷ []))),
                )))
  ]
  run_refines (get ∷ ops) h b [] fresh is = rw (remove-nil h b is) (
      Returns.bind (run_refines ops h b [] fresh is)
        λ (rs, b') g (e, q, ds, eb, is', ec). returns ((rw e), q, ds, eb, is', ec))
  run_refines (get ∷ ops) h b ((a, d) ∷ cs) fresh is =
      Returns.bind (remove-cons h a d b cs is) λ (s, o, b') g (es, eo, q, eq, is').
        rw (es, eo, eq)
          (Returns.bind (run_refines ops g q cs fresh is')
            λ (rs, b') g (e, q, ds, eb, is', ec). returns ((rw e), q, ds, eb, is', ec))
