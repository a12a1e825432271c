-- ===== src/Sbuffer/Readers.antt =====
-- The shared buffer between its two readers, the data manager and the storage manager, where no two
-- calls overlap: both take readings out of one queue.
use btvnlinux.Prelude.{
  ◌+◌, ◌≡◌, refl, ◌∙◌, ap, sym, Bool, true, false, Option, none, some, List, [], ◌∷◌, ◌++◌, length,
  append_assoc, append-nil, arith, ◌==◌, if◌then◌else◌, length-append,
}
use btvnlinux.Memory.{Ptr, null, Heap}
use btvnlinux.Memory.Cells.{Cells, contents}
use btvnlinux.Memory.Returns
use btvnlinux.Memory.Returns.{Returns}
use btvnlinux.Sbuffer.{Node, Sbuffer, Status}
use btvnlinux.Sbuffer.Queue.{IsBuffer}
use btvnlinux.Sbuffer.Refine.{Op, put, get, serve, run, IsFresh, run_refines}

pub data Reader : Type 0 where
  datamgr : Reader
  stormgr : Reader

-- A call of one of the three threads. An insertion carries what `malloc` returns.
pub data Call (D : Type 0) : Type 0 where
  inserted : Ptr → D → Call D
  asked_by : Reader → Call D

abbrev pub same_reader : {A : Type 0} → Reader → Reader → A → A → A
same_reader datamgr datamgr a b = a
same_reader stormgr stormgr a b = a
same_reader r q a b = b

module _ {D : Type 0} where
  abbrev pub ops : List (Call D) → List (Op D)
  ops [] = []
  ops (inserted p d ∷ calls) = put p d ∷ ops calls
  ops (asked_by r ∷ calls) = get ∷ ops calls

  -- The readings for which there was storage.
  abbrev pub stored : List (Call D) → List D
  stored [] = []
  stored (inserted p d ∷ calls) = if p == null then stored calls else d ∷ stored calls
  stored (asked_by r ∷ calls) = stored calls

  abbrev pub took : Reader → Option D → List (Reader × D)
  took r none = []
  took r (some d) = (r, d) ∷ []

  -- Who took what, by the answers to the calls.
  abbrev pub handed : List (Call D) → List (Status × Option D) → List (Reader × D)
  handed [] rs = []
  handed (c ∷ calls) [] = []
  handed (inserted p d ∷ calls) (a ∷ rs) = handed calls rs
  handed (asked_by r ∷ calls) (a ∷ rs) = took r a.1 ++ handed calls rs

  abbrev pub items : List (Reader × D) → List D
  items [] = []
  items ((r, d) ∷ hs) = d ∷ items hs

  -- What one reader took.
  abbrev pub share : Reader → List (Reader × D) → List D
  share r [] = []
  share r ((q, d) ∷ hs) = same_reader r q (d ∷ share r hs) (share r hs)

  queue-stored :
      (full : Bool) (d : D) (q ds : List D)
      → (if full then q else q ++ d ∷ []) ++ ds ≡ q ++ (if full then ds else d ∷ ds)
  queue-stored true d q ds = refl
  queue-stored false d q ds = append_assoc q (d ∷ []) ds

  serve-handed :
      (calls : List (Call D)) (q : List D)
      → items (handed calls (serve q (ops calls)).0) ++ (serve q (ops calls)).1 ≡ q ++ stored calls
  unfolding serve
  serve-handed [] q = sym (append-nil q)
  serve-handed (inserted p d ∷ calls) q =
      serve-handed calls (if p == null then q else q ++ d ∷ [])
      ∙ queue-stored (p == null) d q (stored calls)
  serve-handed (asked_by r ∷ calls) [] = serve-handed calls []
  serve-handed (asked_by r ∷ calls) (d ∷ q) = ap (λ ds. d ∷ ds) (serve-handed calls q)

  share-length :
      (hs : List (Reader × D))
      → length (share datamgr hs) + length (share stormgr hs) ≡ length (items hs)
  share-length [] = refl
  share-length ((datamgr, d) ∷ hs) = omega (arith, share-length hs)
  share-length ((stormgr, d) ∷ hs) = omega (arith, share-length hs)

  -- What was taken, in order, with what is left, against what was there and what was inserted; and
  -- the sizes of the two shares.
  abbrev pub Shared :
      List D → List (Call D) → List (Status × Option D) × Option Sbuffer → Heap (Node D) → Type 0
  Shared q calls (rs, b) g =
      (b' : Sbuffer) × (cs : Cells D) × (b ≡ some b')
      × IsBuffer g b' cs
      × (items (handed calls rs) ++ contents cs ≡ q ++ stored calls)
      × (length (share datamgr (handed calls rs))
            + length (share stormgr (handed calls rs))
            + length (contents cs)
          ≡ length (q ++ stored calls))

  share-total :
      (hs : List (Reader × D)) (ds all : List D)
      → items hs ++ ds ≡ all
      → length (share datamgr hs) + length (share stormgr hs) + length ds ≡ length all
  share-total hs ds all e = omega (arith, share-length hs, length-append (items hs) ds, ap length e)

  -- In any order of whole calls of the three threads, each reading is handed out once, in the order
  -- of the insertions, to the reader that asks next: what the data manager takes and what the storage
  -- manager takes add up to what was inserted, less what is left, so neither gets what the other got.
  -- The conditions are that the buffer is linked as it should be, and that `malloc` returns NULL or
  -- the address of no node in use.
  pub run-Shared :
      (calls : List (Call D)) (h : Heap (Node D)) (b : Sbuffer) (cs : Cells D)
      → IsFresh cs (ops calls)
      → IsBuffer h b cs
      → Returns (Shared (contents cs) calls) (run (ops calls) (some b) h)
  run-Shared calls h b cs fresh is =
      Returns.mono (run_refines (ops calls) h b cs fresh is) λ (rs, b') g (e, q, ds, eb, is', ec).
        let all : items (handed calls rs) ++ contents ds ≡ contents cs ++ stored calls =
          rw (e, ec) (serve-handed calls (contents cs)) in
        (q, ds, eb, is', all, share-total (handed calls rs) (contents ds) _ all)
