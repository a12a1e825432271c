-- ===== src/Connmgr/Rounds.antt =====
-- The array of descriptors through a round of the poll loop: the acceptance of a client and the
-- visits.
use btvnlinux.Prelude.{
  ℕ, suc, ◌≡◌, refl, ap, ◌∙◌, inl, inr, Bool, false, Option, none, some, List, [], ◌∷◌, ◌++◌, ◌==◌,
  ◌&&◌, arith, length, length-append, ltb, Bool-cases, if◌then◌else◌,
}
use btvnlinux.Prelude.Int.{ℤ, pos, eqb_ℤ, ltb_ℤ}
use btvnlinux.Memory.{Ptr, null, Cmd, pure}
use btvnlinux.Memory.Returns
use btvnlinux.Memory.Returns.{Ensures, ensured, failed, hung}
use btvnlinux.Dplist.Defs.{World, Dplist}
use btvnlinux.Connmgr.{Client, Clients}
use btvnlinux.Connmgr.Poll.{Watch, Event, Retval, Manager, PollFd, set_retval, written_to}
use btvnlinux.Connmgr.Stable.{slot-Keeps, on_net-Keeps, on_lists-Keeps}
use btvnlinux.Connmgr.Visit.{Visit}
use btvnlinux.Connmgr.Listen.{
  Round, polled, register, accept, accept_if, visit_all, run_round, is_error, code_number,
  write_through, or_kept,
}
use btvnlinux.Tcpsock.Transfer.{get_sd}
use btvnlinux.Dplist.Update.{insert_sorted}
use btvnlinux.Tcpsock.Open.{wait_for_connection}
use btvnlinux.Connmgr.Poll.{report, max_conn}
use btvnlinux.Connmgr.Listen.{accepted}
use btvnlinux.Tcpsock.Defs.{Code}
use btvnlinux.Memory.{write, ◌>>◌}
use btvnlinux.Connmgr.Counted.{Counted, counted, CountedNext, counted_next, visit_all-Counted}

length-polled : (ps : List PollFd) (rs : List (Bool × Bool)) → length (polled ps rs) ≡ length ps
length-polled [] rs = refl
length-polled (p ∷ ps) [] = refl
length-polled (p ∷ ps) ((r, h) ∷ rs) = ap suc (length-polled ps rs)

module _ {V : Type 0} where
  pub set_retval-Counted :
      (o : Option Retval) (r : Retval) (s : Manager V)
      → Counted s
      → Ensures (λ _ t. Counted t) (written_to o r s)
  set_retval-Counted none r s e = failed
  set_retval-Counted (some q) r s e = ensured e

  -- A new client.
  register-Counted :
      (fuel : ℕ) (r : Round V) (c : Client) (s : Manager V)
      → Counted s
      → Ensures (λ _ t. Counted t) (register fuel r c s)
  unfolding register
  register-Counted fuel r c s e =
      Returns.ensures_bind
        (on_net-Keeps CountedNext counted_next (get_sd c.sock_pt)
          (record s { counter = suc s.counter }) e)
        λ (code, d) t e1.
          let slot = record (r.unset_slot) {
            fd = or_kept r.unset_slot.fd d;
            events = Watch.watching;
          } in
          let grown = record t { poll_fd = t.poll_fd ++ slot ∷ [] } in
          let e2 : Counted grown = omega (arith, length-append t.poll_fd (slot ∷ []), e1) in
          let client = record c {
            sd = or_kept r.unset_slot.fd d;
            last_active = r.now;
            sensor = 0;
          } in
          let stored = record grown {
            clients = record (t.clients) {
              lists = record (t.clients.lists) {
                elements = write t.clients.lists.elements r.client_block (some client);
              };
            };
          } in
          Returns.ensures_bind
            (on_lists-Keeps Counted counted
              (insert_sorted fuel r.node_block (some t.sock_list) r.client_block false) stored e2)
            λ l v e4. ensured e4

  module _ (fuel : ℕ) (element_of : Dplist Client → Ptr → Cmd (World Client) Ptr)
      (remove_node : Dplist Client → Ptr → Cmd Clients (Dplist Client)) (dummy : Ptr) where
    module _ (sv : Ptr) (tcp_conn_ret : ℤ) where
      write_through-Counted :
          (p : Ptr) (o : Option Ptr) (s : Manager V)
          → Counted s
          → Ensures (λ _ t. Counted t) (write_through p o s)
      write_through-Counted p none s e = ensured e
      write_through-Counted p (some q) s e = elim (Bool-cases (p == null)) [
        | inl nil ↦ rw nil failed
        | inr good ↦ rw good (ensured e)
      ]

      -- The tests behind the call that accepts.
      registered-Counted :
          (r : Round V) (code : Code) (c : Client) (s : Manager V)
          → Counted s
          → Ensures (λ _ t. Counted t) (accepted fuel tcp_conn_ret r code c s)
      registered-Counted r code c s e =
          elim (Bool-cases (eqb_ℤ tcp_conn_ret (pos (code_number code)))) [
            | inl refused ↦ rw refused (
                set_retval-Counted s.retval Retval.accept_connection_error
                  (record s { reports = Event.not_accepted ∷ s.reports }) e)
            | inr taken ↦ elim (Bool-cases (r.client_block == null)) [
              | inl nil ↦ rw (taken, nil) failed
              | inr good ↦ rw (taken, good) (register-Counted fuel r c s e)
            ]
          ]

      accept-Counted :
          (r : Round V) (s : Manager V)
          → Counted s
          → Ensures (λ _ t. Counted t) (accept fuel sv tcp_conn_ret r s)
      unfolding accept
      accept-Counted r s e =
          Returns.ensures_bind (on_net-Keeps Counted counted (wait_for_connection r.replies sv) s e)
            λ (code, o) t e1.
              Returns.ensures_bind (write_through-Counted r.client_block o t e1) λ x u e2.
                registered-Counted r code
                  (record (r.unset_client) { sock_pt = or_kept r.unset_client.sock_pt o }) u e2

      accept_if-Counted :
          (r : Round V) (s : Manager V)
          → Counted s
          → Ensures
              (λ _ t. Counted t)
              (accept_if fuel element_of remove_node dummy sv tcp_conn_ret r s)
      accept_if-Counted r s e = Returns.ensures_bind (slot-Keeps Counted counted 0 s e) λ p t e1.
          elim (Bool-cases (p.readable && ltb t.counter max_conn)) [
            | inl room ↦ rw room (Returns.ensures_bind (accept-Counted r t e1) λ x u e2. ensured e2)
            | inr full ↦ rw full (ensured e1)
          ]

      visits-Counted :
          (poll_ret : ℤ) (vs : List (Visit V)) (s : Manager V)
          → Counted s
          → Ensures
              (λ _ t. Counted t)
              ((if ltb_ℤ (pos 0) poll_ret
                  then visit_all fuel element_of remove_node dummy sv tcp_conn_ret vs 1
                  else pure tt)
                s)
      visits-Counted poll_ret vs s e = elim (Bool-cases (ltb_ℤ (pos 0) poll_ret)) [
        | inl more ↦ rw more (
            visit_all-Counted fuel element_of remove_node dummy sv tcp_conn_ret vs 1 s e
              (omega arith))
        | inr done ↦ rw done (ensured e)
      ]

      reported-Counted :
          (poll_ret : ℤ) (s : Manager V)
          → Counted s
          → Ensures
              (λ _ t. Counted t)
              ((if is_error poll_ret
                  then set_retval Retval.poll_error >> report Event.poll_failed
                  else pure tt)
                s)
      reported-Counted poll_ret s e = elim (Bool-cases (is_error poll_ret)) [
        | inl bad ↦ rw bad (
            Returns.ensures_bind (set_retval-Counted s.retval Retval.poll_error s e)
              λ x t e1. ensured e1)
        | inr good ↦ rw good (ensured e)
      ]

      -- A round of the poll loop, when it returns, leaves the array with one slot for the server and
      -- one for each client that is counted, if that is how it was.
      pub run_round-Counted :
          (r : Round V) (s : Manager V)
          → Counted s
          → Ensures
              (λ _ t. Counted t)
              (run_round fuel element_of remove_node dummy sv tcp_conn_ret r s)
      unfolding run_round
      run_round-Counted r s e =
          let polled_s = record s { poll_fd = polled s.poll_fd r.revents } in
          Returns.ensures_bind
            (accept_if-Counted r polled_s (length-polled s.poll_fd r.revents ∙ e))
            λ poll_ret t e1.
              Returns.ensures_bind (visits-Counted poll_ret r.visits t e1)
                λ x u e2. reported-Counted poll_ret u e2
