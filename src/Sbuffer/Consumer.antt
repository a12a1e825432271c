-- ===== src/Sbuffer/Consumer.antt =====
-- The loop by which the data manager and the storage manager read the shared buffer:
-- `while (sbuffer_remove(buffer, &data) != SBUFFER_FAILURE)` over a body.
use btvnlinux.Prelude.{
  ℕ, zero, suc, ◌+◌, ◌≡◌, refl, ap, Option, none, some, List, [], ◌∷◌, ◌++◌, arith, length,
  replicate, if◌then◌else◌,
}
use btvnlinux.Memory.{
  Fault, Ptr, Heap, Run, ok, fault, out_of_fuel, Cmd, pure, hang, ◌>>=◌, ◌>>◌, and_then, zoom,
  resume,
}
use btvnlinux.Memory.Cells.{Cells, contents}
use btvnlinux.Memory.Returns
use btvnlinux.Memory.Returns.{Returns, NeverReturns}
use btvnlinux.Sbuffer.{Node, Sbuffer, Status, success, no_data, is_failure, remove}
use btvnlinux.Sbuffer.Queue.{IsBuffer}
use btvnlinux.Sbuffer.Step.{remove-cons, remove-nil}

module _ {D : Type 0} where
  -- `*data`, where `sbuffer_remove` may have left it as it was.
  abbrev pub kept : D → Option D → D
  kept d none = d
  kept d (some e) = e

  -- The data that `n` rounds find in `data`: those of the queue in order, and then the last again.
  abbrev pub readings : ℕ → D → List D → List D
  readings zero d es = []
  readings (suc n) d [] = d ∷ readings n d []
  readings (suc n) d (e ∷ es) = e ∷ readings n e es

  -- A round too many for the queue finds its last datum once more.
  abbrev pub last_reading : D → List D → D
  last_reading d [] = d
  last_reading d (e ∷ es) = last_reading e es

  pub readings-repeat :
      (k m : ℕ) (d : D) (es : List D)
      → k ≡ length es + m
      → readings k d es ≡ es ++ replicate m (last_reading d es)
  readings-repeat zero zero d [] eq = refl
  readings-repeat zero (suc m) d [] eq = absurd (omega arith)
  readings-repeat (suc k) zero d [] eq = absurd (omega arith)
  readings-repeat (suc k) (suc m) d [] eq = ap (λ t. d ∷ t) (readings-repeat k m d [] (omega arith))
  readings-repeat zero m d (e ∷ es) eq = absurd (omega arith)
  readings-repeat (suc k) m d (e ∷ es) eq = ap (λ t. e ∷ t) (readings-repeat k m e es (omega arith))

-- A thread that reads the buffer: its own state and the nodes of the buffer.
pub record Thread (D S : Type 0) : Type 0 where
  pub own : S
  pub nodes : Heap (Node D)

module _ {D S : Type 0} where
  abbrev pub on_own : {A : Type 0} → Cmd S A → Cmd (Thread D S) A
  on_own m = zoom (λ t. t.own) (λ t s. record t { own = s }) m

  abbrev pub on_nodes : {A : Type 0} → Cmd (Heap (Node D)) A → Cmd (Thread D S) A
  on_nodes m = zoom (λ t. t.nodes) (λ t h. record t { nodes = h }) m

  -- A run as the thread's own state sees it.
  abbrev pub own_run : {A : Type 0} → Run (Thread D S) A → Run S (Unit {0})
  own_run (ok a t) = ok tt t.own
  own_run (fault e) = fault e
  own_run out_of_fuel = out_of_fuel

  module _ (body : D → Cmd S (Unit {0})) where
    -- The condition of the loop and, unless that ends it, its body.
    unfoldable pub round : D → Option Sbuffer → Cmd (Thread D S) (Status × D × Option Sbuffer)
    round d b = do
      (s, o, b') ← on_nodes (remove b)
      if is_failure s then pure tt else on_own (body (kept d o))
      pure (s, kept d o, b')

    -- The loop, with fuel.
    unfoldable pub consume : (fuel : ℕ) → D → Option Sbuffer → Cmd (Thread D S) (Unit {0})
    consume zero d b = hang
    consume (suc k) d b = do
      (s, e, b') ← round d b
      let rest = consume k e b'
      if is_failure s then pure tt else rest

    -- Its first rounds.
    unfoldable pub rounds : (n : ℕ) → D → Option Sbuffer → Cmd (Thread D S) (D × Option Sbuffer)
    rounds zero d b = pure (d, b)
    rounds (suc n) d b = do (s, e, b') ← round d b; rounds n e b'

    -- The body over given data.
    unfoldable pub run_all : List D → Cmd S (Unit {0})
    run_all [] = pure tt
    run_all (e ∷ es) = do body e; run_all es

    -- The run of the body in a round, by a thread with the nodes `h`, and what follows the round.
    abbrev in_round :
        Heap (Node D)
        → Status × D × Option Sbuffer
        → Run S (Unit {0})
        → Run (Thread D S) (Status × D × Option Sbuffer)
    in_round h x r = and_then (resume (λ s. record { own = s; nodes = h }) r) (λ _. pure x)

    own_run-in_round :
        {B : Type 0} (h : Heap (Node D)) (x : Status × D × Option Sbuffer) (r : Run S (Unit {0}))
        (k : Status × D × Option Sbuffer → Cmd (Thread D S) B) (next : Cmd S (Unit {0}))
        → ((s : S) → own_run (k x (record { own = s; nodes = h })) ≡ next s)
        → own_run (and_then (in_round h x r) k) ≡ and_then r (λ _. next)
    own_run-in_round h x (ok a s) k next same = same s
    own_run-in_round h x (fault e) k next same = refl
    own_run-in_round h x out_of_fuel k next same = refl

    NeverReturns-in_round :
        {B : Type 0} (h : Heap (Node D)) (x : Status × D × Option Sbuffer) (r : Run S (Unit {0}))
        (k : Status × D × Option Sbuffer → Cmd (Thread D S) B)
        → ((s : S) → NeverReturns (k x (record { own = s; nodes = h })))
        → NeverReturns (and_then (in_round h x r) k)
    NeverReturns-in_round h x (ok a s) k never = never s
    NeverReturns-in_round h x (fault e) k never = tt
    NeverReturns-in_round h x out_of_fuel k never = tt

    round-nil :
        (t : Thread D S) (d : D) (b : Sbuffer)
        → IsBuffer t.nodes b []
        → round d (some b) t ≡ in_round t.nodes (no_data, d, some b) (body d t.own)
    unfolding round
    round-nil t d b is = rw (remove-nil t.nodes b is) refl

    round-cons :
        (t : Thread D S) (a : Ptr) (d e : D) (b : Sbuffer) (cs : Cells D)
        → IsBuffer t.nodes b ((a, e) ∷ cs)
        → (h : Heap (Node D)) × (q : Sbuffer) × IsBuffer h q cs
          × (round d (some b) t ≡ in_round h (success, e, some q) (body e t.own))
    unfolding round
    round-cons t a d e b cs is =
        let (x, h, ran, (es, eo, q, eb, is')) = Returns.outcome (remove-cons t.nodes a e b cs is) in
        (h, q, is', rw (ran, es, eo, eb) refl)

    -- The body is run on the data of the queue in order, and then on the last one again and again.
    pub rounds-run_all :
        (n : ℕ) (t : Thread D S) (d : D) (b : Sbuffer) (cs : Cells D)
        → IsBuffer t.nodes b cs
        → own_run (rounds n d (some b) t) ≡ run_all (readings n d (contents cs)) t.own
    unfolding rounds run_all
    rounds-run_all zero t d b cs is = refl
    rounds-run_all (suc n) t d b [] is = rw (round-nil t d b is) (
        own_run-in_round t.nodes _ (body d t.own) _ (run_all (readings n d []))
          λ s. rounds-run_all n (record { own = s; nodes = t.nodes }) d b [] is)
    rounds-run_all (suc n) t d b ((a, e) ∷ cs) is =
        let (h, q, is', same) = round-cons t a d e b cs is in
        rw same (
          own_run-in_round h _ (body e t.own) _ (run_all (readings n e (contents cs)))
            λ s. rounds-run_all n (record { own = s; nodes = h }) e q cs is')

    -- However much fuel it has, the loop over a buffer does not return.
    pub consume-NeverReturns :
        (fuel : ℕ) (t : Thread D S) (d : D) (b : Sbuffer) (cs : Cells D)
        → IsBuffer t.nodes b cs
        → NeverReturns (consume fuel d (some b) t)
    unfolding consume
    consume-NeverReturns zero t d b cs is = tt
    consume-NeverReturns (suc k) t d b [] is = rw (round-nil t d b is) (
        NeverReturns-in_round t.nodes _ (body d t.own) _
          λ s. consume-NeverReturns k (record { own = s; nodes = t.nodes }) d b [] is)
    consume-NeverReturns (suc k) t d b ((a, e) ∷ cs) is =
        let (h, q, is', same) = round-cons t a d e b cs is in
        rw same (
          NeverReturns-in_round h _ (body e t.own) _
            λ s. consume-NeverReturns k (record { own = s; nodes = h }) e q cs is')

    -- A body that faults on the first datum.
    pub consume-first :
        (k : ℕ) (t : Thread D S) (a : Ptr) (d e : D) (b : Sbuffer) (cs : Cells D) (f : Fault)
        → IsBuffer t.nodes b ((a, e) ∷ cs)
        → body e t.own ≡ fault f
        → consume (suc k) d (some b) t ≡ fault f
    unfolding consume
    consume-first k t a d e b cs f is fails =
        let (h, q, is', same) = round-cons t a d e b cs is in rw (same, fails) refl

    hung-in_round :
        {B : Type 0} (h : Heap (Node D)) (x : Status × D × Option Sbuffer) (r : Run S (Unit {0}))
        (k : Status × D × Option Sbuffer → Cmd (Thread D S) B) (u : S)
        → r ≡ ok tt u
        → k x (record { own = u; nodes = h }) ≡ out_of_fuel
        → and_then (in_round h x r) k ≡ out_of_fuel
    hung-in_round h x r k u ran next = rw (ran, next) refl

    -- Where the body always returns, the loop goes on for as many rounds as there is fuel.
    pub consume-hangs :
        ((e : D) (s : S) → (u : S) × (body e s ≡ ok tt u))
        → (fuel : ℕ) (t : Thread D S) (d : D) (b : Sbuffer) (cs : Cells D) → IsBuffer t.nodes b cs
        → consume fuel d (some b) t ≡ out_of_fuel
    unfolding consume
    consume-hangs good zero t d b cs is = refl
    consume-hangs good (suc k) t d b [] is =
        let (u, ran) = good d t.own in
        rw (round-nil t d b is) (
          hung-in_round t.nodes _ (body d t.own) _ u ran
            (consume-hangs good k (record { own = u; nodes = t.nodes }) d b [] is))
    consume-hangs good (suc k) t d b ((a, e) ∷ cs) is =
        let (h, q, is', same) = round-cons t a d e b cs is in
        let (u, ran) = good e t.own in
        rw same (
          hung-in_round h _ (body e t.own) _ u ran
            (consume-hangs good k (record { own = u; nodes = h }) e q cs is'))
