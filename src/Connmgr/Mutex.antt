-- ===== src/Connmgr/Mutex.antt =====
-- The mutex on the identifier of the sensor to stop, through a visit.
use btvnlinux.Prelude.{
  ℕ, ◌≡◌, refl, ◌⊎◌, inl, inr, Bool, true, false, Option, none, some, List, ◌∷◌, ◌==◌, Bool-cases,
}
use btvnlinux.Memory.{Ptr, Cmd, Fault, ok, fault}
use btvnlinux.Memory.Returns
use btvnlinux.Memory.Returns.{NeverReturns, Ensures, ensured, failed}
use btvnlinux.Dplist.Defs.{World, Dplist}
use btvnlinux.Connmgr.{Client, Clients, take_out}
use btvnlinux.Connmgr.Poll.{Event, Manager, PollFd}
use btvnlinux.Connmgr.Stable.{Stable, slot-Keeps, client_at-Keeps, arrive-Keeps}
use btvnlinux.Connmgr.Visit.{Visit, with_array, must_drop, drop_client, settle, arrive, visit}

-- Whether the mutex is held.
abbrev Locked : {V : Type 0} → Bool → Manager V → Type 0
Locked b s = s.lock_held ≡ b

abbrev locked : {V : Type 0} → (b : Bool) → Stable {V = V} (Locked b)
locked b = record {
  clients = λ s c e. e;
  nodes = λ s h e. e;
  buffer = λ s q e. e;
  reports = λ s es e. e;
  slot = λ s i p e. e;
}

module _ {V : Type 0} (fuel : ℕ) (element_of : Dplist Client → Ptr → Cmd (World Client) Ptr)
    (remove_node : Dplist Client → Ptr → Cmd Clients (Dplist Client)) (dummy : Ptr) where
  -- How a visit leaves the mutex that was free: free, or held behind the report that a connection
  -- is closed.
  abbrev pub Released : ℕ → Manager V → Type 0
  Released j t =
      (t.lock_held ≡ false)
      ⊎ ((t.lock_held ≡ true)
          × (n : ℕ) × (es : List Event) × (t.reports ≡ Event.connection_closed_to n ∷ es))

  with_array-Released :
      (o : Option (List PollFd)) (i : ℕ) (s : Manager V)
      → Released i s
      → Ensures (λ _ t. Released i t) (with_array o s)
  with_array-Released none i s free = failed
  with_array-Released (some fds) i s free = ensured free

  drop_client-Released :
      (i : ℕ) (node : Ptr) (o : Option Client) (s : Manager V)
      → s.lock_held ≡ true
      → Ensures (λ _ t. Released i t) (drop_client fuel element_of remove_node dummy node o s)
  unfolding drop_client
  drop_client-Released i node none s held = ensured (inl refl)
  drop_client-Released i node (some c) s held = elim (Bool-cases (c.sensor == s.stopsig)) [
    | inl same ↦ rw same (ensured (inl refl))
    | inr other ↦ rw other (
        Returns.ensures_bind
          (Returns.ensures_resumed {P = λ _ t. Released i t} _
            (remove_node s.sock_list node s.clients) λ l cs. inr (held, c.sensor, s.reports, refl))
          λ l t free. ensured free)
  ]

  settle-Released :
      (v : Visit V) (i : ℕ) (node client : Ptr) (s : Manager V)
      → s.lock_held ≡ false
      → Ensures Released (settle fuel element_of remove_node dummy v i node client s)
  unfolding settle
  settle-Released v i node client s free =
      rw (settle, free)
        (Returns.ensures_bind
          (client_at-Keeps (Locked true) (locked true) client (record s { lock_held = true }) refl)
          λ c t e1. Returns.ensures_bind (slot-Keeps (Locked true) (locked true) i t e1) λ p u e2.
            elim (Bool-cases (must_drop u.stopsig v.now_after c p)) [
              | inr keep ↦ rw keep (ensured (inl refl))
              | inl drop ↦ rw drop (
                  Returns.ensures_bind (drop_client-Released i node c u e2) λ x w rel.
                    Returns.ensures_bind
                      (with_array-Released (take_out w.counter i w.poll_fd) i w rel)
                      λ y z rel'. ensured rel')
            ])

  -- A visit that starts with the mutex free, when it returns, leaves it free, or has closed a
  -- connection and left the mutex held.
  pub visit-Released :
      (v : Visit V) (i : ℕ) (s : Manager V)
      → s.lock_held ≡ false
      → Ensures Released (visit fuel element_of remove_node dummy v i s)
  unfolding visit
  visit-Released v i s free =
      Returns.ensures_bind
        (arrive-Keeps (Locked false) (locked false) fuel element_of remove_node dummy v i s free)
        λ (node, client) t e1. settle-Released v i node client t e1

  -- While the manager holds the mutex, a visit that gets to the mutex waits there for ever, as the
  -- manager itself is the holder: if the part of the visit in front of it returns, whatever that
  -- leaves, the visit ends in the deadlock.
  pub visit-deadlock :
      (v : Visit V) (i : ℕ) (s t : Manager V) (x : Ptr × Ptr)
      → s.lock_held ≡ true
      → arrive fuel element_of remove_node dummy v i s ≡ ok x t
      → visit fuel element_of remove_node dummy v i s ≡ fault Fault.deadlock
  unfolding visit settle
  visit-deadlock v i s t x held came =
      let still : t.lock_held ≡ true =
        Returns.ensures_holds
          (arrive-Keeps (Locked true) (locked true) fuel element_of remove_node dummy v i s held)
          came in
      rw (visit, came, settle, still) refl
