-- ===== src/Connmgr/Counted.antt =====
-- The array of descriptors has one slot for the server and one for each client that is counted:
-- the visits of the descriptors keep it so.
use btvnlinux.Prelude.{
  ℕ, suc, ◌<◌, ◌≡◌, ◌∙◌, inl, inr, true, Option, none, some, List, [], ◌∷◌, ◌==◌, arith, length,
  length-set, ltb, Bool-cases,
}
use btvnlinux.Prelude.Int.{ℤ}
use btvnlinux.Memory.{Ptr, Cmd}
use btvnlinux.Memory.Returns
use btvnlinux.Memory.Returns.{Ensures, ensured, failed, hung}
use btvnlinux.Dplist.Defs.{World, Dplist}
use btvnlinux.Connmgr.{Client, Clients, take_out}
use btvnlinux.Connmgr.Poll.{Manager, PollFd}
use btvnlinux.Connmgr.Stable.{Stable, slot-Keeps, client_at-Keeps, arrive-Keeps}
use btvnlinux.Connmgr.Visit.{Visit, with_array, drop_client, must_drop, settle, visit}
use btvnlinux.Connmgr.Listen.{visit_all}
use btvnlinux.Connmgr.Slots.{HasSlots, take_out-HasSlots}

module _ {V : Type 0} where
  -- One slot more than clients.
  abbrev pub Counted : Manager V → Type 0
  Counted s = length s.poll_fd ≡ suc s.counter

  -- The same while there is a client, and while the slot of a new client is missing.
  abbrev CountedSome : Manager V → Type 0
  CountedSome s = (length s.poll_fd ≡ suc s.counter) × (0 < s.counter)

  abbrev pub CountedNext : Manager V → Type 0
  CountedNext s = length s.poll_fd ≡ s.counter

  pub counted : Stable Counted
  counted = record {
    clients = λ s c e. e;
    nodes = λ s h e. e;
    buffer = λ s q e. e;
    reports = λ s es e. e;
    slot = λ s i p e. length-set s.poll_fd i p ∙ e;
  }

  counted_some : Stable CountedSome
  counted_some = record {
    clients = λ s c e. e;
    nodes = λ s h e. e;
    buffer = λ s q e. e;
    reports = λ s es e. e;
    slot = λ s i p (e, lt). (length-set s.poll_fd i p ∙ e, lt);
  }

  pub counted_next : Stable CountedNext
  counted_next = record {
    clients = λ s c e. e;
    nodes = λ s h e. e;
    buffer = λ s q e. e;
    reports = λ s es e. e;
    slot = λ s i p e. length-set s.poll_fd i p ∙ e;
  }

  -- The array that one slot was taken out of.
  with_array-Counted :
      (o : Option (List PollFd)) (s : Manager V)
      → HasSlots s.counter o
      → 0 < s.counter
      → Ensures (λ _ t. Counted t) (with_array o s)
  with_array-Counted none s e lt = failed
  with_array-Counted (some fds) s e lt = ensured (omega (arith, e))

  module _ (fuel : ℕ) (element_of : Dplist Client → Ptr → Cmd (World Client) Ptr)
      (remove_node : Dplist Client → Ptr → Cmd Clients (Dplist Client)) (dummy : Ptr) where
    drop_client-Counted :
        (node : Ptr) (o : Option Client) (s : Manager V)
        → CountedSome s
        → Ensures (λ _ t. CountedSome t) (drop_client fuel element_of remove_node dummy node o s)
    unfolding drop_client
    drop_client-Counted node none s e = ensured e
    drop_client-Counted node (some c) s e = elim (Bool-cases (c.sensor == s.stopsig)) [
      | inl same ↦ rw same (ensured e)
      | inr other ↦ rw other (
          Returns.ensures_bind
            (Returns.ensures_resumed {P = λ _ t. CountedSome t} _
              (remove_node s.sock_list node s.clients) λ l cs. e)
            λ l t e'. ensured e')
    ]

    settle-Counted :
        (v : Visit V) (i : ℕ) (node client : Ptr) (s : Manager V)
        → CountedSome s
        → 0 < i
        → Ensures
            (λ j t. Counted t × (0 < j))
            (settle fuel element_of remove_node dummy v i node client s)
    unfolding settle
    settle-Counted v i node client s e lt = elim (Bool-cases s.lock_held) [
      | inl held ↦ rw (settle, held) failed
      | inr free ↦
          rw (settle, free)
            (Returns.ensures_bind
              (client_at-Keeps CountedSome counted_some client (record s { lock_held = true }) e)
              λ c t e1. Returns.ensures_bind (slot-Keeps CountedSome counted_some i t e1) λ p u e2.
                elim (Bool-cases (must_drop u.stopsig v.now_after c p)) [
                  | inr keep ↦ rw keep (ensured (e2.0, omega arith))
                  | inl drop ↦ rw drop (
                      Returns.ensures_bind (drop_client-Counted node c u e2)
                        λ x w (e3, some_client).
                          Returns.ensures_bind
                            (with_array-Counted (take_out w.counter i w.poll_fd) w
                              (take_out-HasSlots w.counter i w.poll_fd e3) some_client)
                            λ y z e4. ensured (e4, lt))
                ])
    ]

    visit-Counted :
        (v : Visit V) (i : ℕ) (s : Manager V)
        → CountedSome s
        → 0 < i
        → Ensures (λ j t. Counted t × (0 < j)) (visit fuel element_of remove_node dummy v i s)
    unfolding visit
    visit-Counted v i s e lt =
        Returns.ensures_bind
          (arrive-Keeps CountedSome counted_some fuel element_of remove_node dummy v i s e)
          λ (node, client) t e1. settle-Counted v i node client t e1 lt

    module _ (sv : Ptr) (tcp_conn_ret : ℤ) where
      pub visit_all-Counted :
          (vs : List (Visit V)) (i : ℕ) (s : Manager V)
          → Counted s
          → 0 < i
          → Ensures
              (λ _ t. Counted t)
              (visit_all fuel element_of remove_node dummy sv tcp_conn_ret vs i s)
      unfolding visit_all
      visit_all-Counted [] i s e lt = elim (Bool-cases (ltb i (suc s.counter))) [
        | inl more ↦ rw more hung
        | inr done ↦ rw done (ensured e)
      ]
      visit_all-Counted (v ∷ vs) i s e lt = elim (Bool-cases (ltb i (suc s.counter))) [
        | inl more ↦ rw more (
            Returns.ensures_bind (visit-Counted v i s (e, ground arith) lt)
              λ j t (e', lt'). visit_all-Counted vs j t e' lt')
        | inr done ↦ rw done (ensured e)
      ]
