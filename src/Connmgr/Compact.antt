-- ===== src/Connmgr/Compact.antt =====
-- The array of descriptors once one is taken out of it.
use btvnlinux.Prelude.{
  take-append, ℕ, zero, suc, ◌+◌, ◌≡◌, refl, ap, ◌∙◌, true, false, some, List, [], ◌∷◌, ◌++◌, arith,
  ◌==◌, length, get_elem?, set, append_assoc, length-append, ◌<◌,
}
use btvnlinux.Connmgr.{copy_slot, skip, move_down, take_out}

skip-past : (i id2 : ℕ) → (id2 == i) ≡ false → skip i id2 ≡ id2
unfolding skip
skip-past i id2 e = rw e refl

skip-here : (i id2 : ℕ) → (id2 == i) ≡ true → skip i id2 ≡ suc id2
unfolding skip
skip-here i id2 e = rw e refl

module _ {A : Type 0} where
  pub get_elem?-prefix :
      (us : List A) (x : A) (vs : List A) → get_elem? (us ++ x ∷ vs) (length us) ≡ some x
  get_elem?-prefix [] x vs = refl
  get_elem?-prefix (u ∷ us) x vs = get_elem?-prefix us x vs

  get_elem?-second :
      (us : List A) (x y : A) (vs : List A)
      → get_elem? (us ++ x ∷ y ∷ vs) (suc (length us)) ≡ some y
  get_elem?-second [] x y vs = refl
  get_elem?-second (u ∷ us) x y vs = get_elem?-second us x y vs

  set-prefix :
      (us : List A) (x v : A) (vs : List A) → set (us ++ x ∷ vs) (length us) v ≡ us ++ v ∷ vs
  set-prefix [] x v vs = refl
  set-prefix (u ∷ us) x v vs = ap (λ t. u ∷ t) (set-prefix us x v vs)

  copy_slot-same :
      (us : List A) (x : A) (vs : List A)
      → copy_slot (length us) (length us) (us ++ x ∷ vs) ≡ some (us ++ x ∷ vs)
  unfolding copy_slot
  copy_slot-same us x vs =
      rw (copy_slot, get_elem?-prefix us x vs)
        (rw (get_elem?-prefix us x vs) (ap some (set-prefix us x x vs)))

  copy_slot-next :
      (us : List A) (x y : A) (vs : List A)
      → copy_slot (length us) (suc (length us)) (us ++ x ∷ y ∷ vs) ≡ some (us ++ y ∷ y ∷ vs)
  unfolding copy_slot
  copy_slot-next us x y vs =
      rw (copy_slot, get_elem?-second us x y vs, get_elem?-prefix us x (y ∷ vs))
        (ap some (set-prefix us x y (y ∷ vs)))

  -- What is behind the last descriptor that was moved.
  abbrev last_of : A → List A → A
  last_of x [] = x
  last_of x (y ∷ ys) = last_of y ys

  -- One round, where the slot that is read is known.
  round_lem :
      (k i id1 id2 source : ℕ) (fds fds' : List A)
      → skip i id2 ≡ source
      → copy_slot id1 source fds ≡ some fds'
      → move_down (suc k) i id1 id2 fds ≡ move_down k i (suc id1) (suc source) fds'
  unfolding move_down
  round_lem k i id1 id2 source fds fds' s e = rw (move_down, s, e) (rw s refl)

  -- Behind the descriptor that is taken out, each moves down by one.
  moves_down :
      (k i : ℕ) (us : List A) (x : A) (vs : List A)
      → k ≡ length vs
      → i < suc (length us)
      → move_down k i (length us) (suc (length us)) (us ++ x ∷ vs)
        ≡ some (us ++ (vs ++ last_of x vs ∷ []))
  unfolding move_down skip
  moves_down zero i us x [] e lt = refl
  moves_down (suc k) i us x [] e lt = absurd (omega arith)
  moves_down zero i us x (y ∷ vs) e lt = absurd (omega arith)
  moves_down (suc k) i us x (y ∷ vs) e lt =
      let past : (suc (length us) == i) ≡ false = ground arith in
      let len : length (us ++ y ∷ []) ≡ suc (length us) =
        omega (arith, length-append us (y ∷ [])) in
      let rest = moves_down k i (us ++ y ∷ []) y vs (omega arith) (omega arith) in
      round_lem k i (length us) (suc (length us)) _ _ _ (skip-past i _ past)
        (copy_slot-next us x y vs)
      ∙ (rw
          (
            len,
            append_assoc us (y ∷ []) (y ∷ vs),
            append_assoc us (y ∷ []) (vs ++ last_of y vs ∷ []),
          )
          at rest)

  -- In front of it each is copied to itself.
  stays :
      (k i : ℕ) (ps us : List A) (x : A) (vs : List A)
      → k ≡ length us + length vs
      → i ≡ length ps + length us
      → move_down k i (length ps) (length ps) (ps ++ (us ++ x ∷ vs))
        ≡ some (ps ++ (us ++ (vs ++ last_of x vs ∷ [])))
  unfolding move_down skip
  stays zero i ps [] x [] e at = refl
  stays (suc k) i ps [] x [] e at = absurd (omega arith)
  stays zero i ps [] x (y ∷ vs) e at = absurd (omega arith)
  stays (suc k) i ps [] x (y ∷ vs) e at =
      let here : (length ps == i) ≡ true = ground arith in
      let len : length (ps ++ y ∷ []) ≡ suc (length ps) =
        omega (arith, length-append ps (y ∷ [])) in
      let rest = moves_down k i (ps ++ y ∷ []) y vs (omega arith) (omega arith) in
      round_lem k i (length ps) (length ps) _ _ _ (skip-here i _ here) (copy_slot-next ps x y vs)
      ∙ (rw
          (
            len,
            append_assoc ps (y ∷ []) (y ∷ vs),
            append_assoc ps (y ∷ []) (vs ++ last_of y vs ∷ []),
          )
          at rest)
  stays zero i ps (u ∷ us) x vs e at = absurd (omega arith)
  stays (suc k) i ps (u ∷ us) x vs e at =
      let before : (length ps == i) ≡ false = ground arith in
      let len : length (ps ++ u ∷ []) ≡ suc (length ps) =
        omega (arith, length-append ps (u ∷ [])) in
      let rest = stays k i (ps ++ u ∷ []) us x vs (omega arith) (omega arith) in
      round_lem k i (length ps) (length ps) _ _ _ (skip-past i _ before)
        (copy_slot-same ps u (us ++ x ∷ vs))
      ∙ (rw
          (
            len,
            append_assoc ps (u ∷ []) (us ++ x ∷ vs),
            append_assoc ps (u ∷ []) (us ++ (vs ++ last_of x vs ∷ [])),
          )
          at rest)

  -- Taking descriptor `i` out of the array of a server and its clients reads and writes no slot
  -- out of bounds, and leaves the other descriptors in their order.
  pub take_out-removes :
      (counter : ℕ) (us : List A) (x : A) (vs : List A)
      → counter ≡ length us + length vs
      → take_out counter (length us) (us ++ x ∷ vs) ≡ some (us ++ vs)
  unfolding take_out
  take_out-removes counter us x vs e =
      let kept = take-append (us ++ vs) (last_of x vs ∷ []) in
      let len : length (us ++ vs) ≡ counter = omega (arith, length-append us vs) in
      rw (take_out, stays counter (length us) [] us x vs e (omega arith))
        (ap some (rw (len, append_assoc us vs (last_of x vs ∷ [])) at kept))
