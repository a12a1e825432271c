-- ===== src/Connmgr/Listening.antt =====
-- The array of descriptors through `connmgr_listen` as a whole.
use btvnlinux.Prelude.{ℕ, suc, ◌≡◌, refl, inl, inr, false, ◌&&◌, List, [], ◌∷◌, ◌==◌, Bool-cases}
use btvnlinux.Prelude.{ap, sym, ◌∙◌, length, length-set}
use btvnlinux.Prelude.Int.{ℤ, pos, eqb_ℤ}
use btvnlinux.Memory.{Ptr, null, Cmd}
use btvnlinux.Memory.Returns
use btvnlinux.Memory.Returns.{Ensures, ensured, hung}
use btvnlinux.Dplist.Defs.{World, Dplist}
use btvnlinux.Tcpsock.Defs.{Replies}
use btvnlinux.Tcpsock.Open.{out_of_range, passive_open}
use btvnlinux.Tcpsock.Transfer.{get_sd}
use btvnlinux.Connmgr.{Client, Clients}
use btvnlinux.Connmgr.Poll.{PollFd, Watch, Event, Retval, Manager}
use btvnlinux.Connmgr.Listen.{Round, is_error, or_kept, code_number, poll_loop, serve, listen}
use btvnlinux.Connmgr.Stable.{Stable, on_net-Keeps}
use btvnlinux.Connmgr.Counted.{Counted}
use btvnlinux.Connmgr.Rounds.{run_round-Counted, set_retval-Counted}

-- The server's slot, and no client.
abbrev Alone : {V : Type 0} → Manager V → Type 0
Alone s = (length s.poll_fd ≡ 1) × (s.counter ≡ 0)

alone : {V : Type 0} → Stable {V = V} Alone
alone = record {
  clients = λ s c e. e;
  nodes = λ s h e. e;
  buffer = λ s q e. e;
  reports = λ s es e. e;
  slot = λ s i p (e, z). (length-set s.poll_fd i p ∙ e, z);
}

Alone-Counted : {V : Type 0} (s : Manager V) → Alone s → Counted s
Alone-Counted s (e, z) = e ∙ ap suc (sym z)

module _ {V : Type 0} (fuel : ℕ) (element_of : Dplist Client → Ptr → Cmd (World Client) Ptr)
    (remove_node : Dplist Client → Ptr → Cmd Clients (Dplist Client)) (dummy : Ptr)
    (tcp_conn_ret : ℤ) where
  poll_loop-Counted :
      (sv : Ptr) (rs : List (Round V)) (s : Manager V)
      → Counted s
      → Ensures
          (λ _ t. Counted t)
          (poll_loop fuel element_of remove_node dummy sv tcp_conn_ret rs s)
  unfolding poll_loop
  poll_loop-Counted sv [] s e = hung
  poll_loop-Counted sv (r ∷ rs) s e =
      elim (Bool-cases (eqb_ℤ r.poll_ret (pos 0) && (s.counter == 0))) [
        | inl done ↦ rw done (ensured e)
        | inr more ↦ elim (Bool-cases (is_error r.poll_ret)) [
          | inl bad ↦ rw (more, bad) (ensured e)
          | inr good ↦
              rw (more, good)
                (Returns.ensures_bind
                  (run_round-Counted fuel element_of remove_node dummy sv tcp_conn_ret r s e)
                  λ x t e1. poll_loop-Counted sv rs t e1)
        ]
      ]

  -- Behind `tcp_passive_open`.
  opened-Counted :
      (first : PollFd) (rs : List (Round V)) (code : ℕ) (sv : Ptr) (s : Manager V)
      → Alone s
      → Ensures
          (λ _ t. Counted t)
          (serve fuel element_of remove_node dummy tcp_conn_ret first rs code sv s)
  opened-Counted first rs code sv s e = elim (Bool-cases (code == 0)) [
    | inl good ↦ rw good (
        Returns.ensures_bind
          (on_net-Keeps Alone alone (get_sd sv) (record s { reports = Event.started ∷ s.reports })
            e)
          λ (c, d) t (e1, z).
            let slot = record first { fd = or_kept first.fd d; events = Watch.watching } in
            poll_loop-Counted sv rs (record t { poll_fd = slot ∷ [] }) (ap suc (sym z)))
    | inr bad ↦ rw bad (
        set_retval-Counted s.retval Retval.open_socket_error
          (record s { reports = Event.open_failed ∷ s.reports }) (Alone-Counted s e))
  ]

  -- Whatever state it starts in, and whatever its rounds find, `connmgr_listen` on a port in range,
  -- when it returns, leaves the array of descriptors with one slot for the server and one for each
  -- client that is counted.
  pub listen-Counted :
      (port : ℤ) (l : Dplist Client) (first : PollFd) (replies : Replies) (rs : List (Round V))
      (s : Manager V)
      → out_of_range port ≡ false
      → Ensures
          (λ _ t. Counted t)
          (listen fuel element_of remove_node dummy tcp_conn_ret port l first replies rs s)
  unfolding listen
  listen-Counted port l first replies rs s range =
      let start = record s { sock_list = l; poll_fd = first ∷ []; counter = 0 } in
      rw range (
        Returns.ensures_bind
          (on_net-Keeps Alone alone (passive_open replies port) start (refl, refl))
          λ (code, o) t e1.
            Returns.ensures_bind (opened-Counted first rs (code_number code) (or_kept null o) t e1)
              λ x u e2. ensured e2)
