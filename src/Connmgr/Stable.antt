-- ===== src/Connmgr/Stable.antt =====
-- Properties of the connection manager that the first part of a visit, up to the mutex, keeps.
use btvnlinux.Prelude.{
  ℕ, inl, inr, Option, none, some, List, ◌∷◌, ◌==◌, ◌&&◌, get_elem?, set, Bool-cases, if◌then◌else◌,
}
use btvnlinux.Prelude.Int.{ℤ, pos}
use btvnlinux.Memory.{Ptr, null, Heap, Cmd, expect, pure}
use btvnlinux.Memory.Returns
use btvnlinux.Memory.Returns.{Ensures, ensured, failed}
use btvnlinux.Config.{SensorData}
use btvnlinux.Sbuffer
use btvnlinux.Sbuffer.{Sbuffer}
use btvnlinux.Dplist.Defs.{World, Dplist}
use btvnlinux.Dplist.Update.{get_reference_of_element}
use btvnlinux.Tcpsock.Defs.{Code, Net}
use btvnlinux.Tcpsock.Transfer.{receive}
use btvnlinux.Connmgr.{Client, Clients}
use btvnlinux.Connmgr.Poll.{Watch, Event, Manager, PollFd, on_lists, on_net}
use btvnlinux.Connmgr.Visit.{
  Visit, data_address, set_dummy, load_client, store_client, updated, client_at, is_received,
  is_closed, insert_reading, take_in, mark_lost, receive_reading, receive_if, find_client, slot,
  is_active, arrive,
}

-- A property of the manager that does not depend on its clients, on the shared buffer, on the
-- reports or on the contents of a slot.
pub record Stable {V : Type 0} (I : Manager V → Type 0) : Type 0 where
  pub clients : (s : Manager V) (c : Clients) → I s → I (record s { clients = c })
  pub nodes :
      (s : Manager V) (h : Heap (Sbuffer.Node (SensorData V))) → I s → I (record s { nodes = h })
  pub buffer : (s : Manager V) (b : Option Sbuffer) → I s → I (record s { buffer = b })
  pub reports : (s : Manager V) (es : List Event) → I s → I (record s { reports = es })
  pub slot :
      (s : Manager V) (i : ℕ) (p : PollFd) → I s → I (record s { poll_fd = set s.poll_fd i p })

module _ {V : Type 0} (I : Manager V → Type 0) (law : Stable I) where
  abbrev pub Keeps : {A : Type 0} → A → Manager V → Type 0
  Keeps a t = I t

  pub on_lists-Keeps :
      {A : Type 0} (m : Cmd (World Client) A) (s : Manager V) → I s → Ensures Keeps (on_lists m s)
  on_lists-Keeps m s e =
      Returns.ensures_resumed _ (m s.clients.lists)
        λ a w. law.clients s (record (s.clients) { lists = w }) e

  pub on_net-Keeps : {A : Type 0} (m : Cmd Net A) (s : Manager V) → I s → Ensures Keeps (on_net m s)
  on_net-Keeps m s e =
      Returns.ensures_resumed _ (m s.clients.net)
        λ a w. law.clients s (record (s.clients) { net = w }) e

  pub client_at-Keeps : (p : Ptr) (s : Manager V) → I s → Ensures Keeps (client_at p s)
  client_at-Keeps p s e = elim (Bool-cases (p == null)) [
    | inl nil ↦ rw nil (ensured e)
    | inr good ↦
        rw good (Returns.ensures_bind (on_lists-Keeps (load_client p) s e) λ c t e'. ensured e')
  ]

  expect-Keeps : {A : Type 0} (o : Option A) (s : Manager V) → I s → Ensures Keeps (expect o s)
  expect-Keeps none s e = failed
  expect-Keeps (some a) s e = ensured e

  pub slot-Keeps : (i : ℕ) (s : Manager V) → I s → Ensures Keeps (slot i s)
  slot-Keeps i s e = expect-Keeps (get_elem? s.poll_fd i) s e

  insert_reading-Keeps : (v : Visit V) (s : Manager V) → I s → Ensures Keeps (insert_reading v s)
  insert_reading-Keeps v s e =
      Returns.ensures_bind {P = Keeps}
        (Returns.ensures_resumed _ (Sbuffer.insert v.block s.buffer v.reading s.nodes)
          λ x h. law.nodes s h e)
        λ x t e'. ensured (law.buffer t x.1 e')

  mark_lost-Keeps : (i : ℕ) (s : Manager V) → I s → Ensures Keeps (mark_lost i s)
  mark_lost-Keeps i s e =
      Returns.ensures_bind (slot-Keeps i s e)
        λ p t e'. ensured (law.slot t i (record p { events = Watch.lost }) e')

  take_in-Keeps :
      (v : Visit V) (i : ℕ) (client : Ptr) (c : Client) (code : Code) (size : Option ℤ)
      (s : Manager V)
      → I s
      → Ensures Keeps (take_in v i client c code size s)
  take_in-Keeps v i client c code size s e = elim (Bool-cases (is_received code size)) [
    | inl good ↦ rw good (
        Returns.ensures_bind (on_lists-Keeps (store_client client (updated v c)) s e)
          λ x t e'. insert_reading-Keeps v t e')
    | inr bad ↦ elim (Bool-cases (is_closed code)) [
      | inl gone ↦
          rw (bad, gone)
            (Returns.ensures_bind (mark_lost-Keeps i s e)
              λ x t e'. ensured (law.reports t (Event.connection_lost ∷ t.reports) e'))
      | inr other ↦ rw (bad, other) (ensured e)
    ]
  ]

  receive_reading-Keeps :
      (v : Visit V) (i : ℕ) (client : Ptr) (c : Client) (s : Manager V)
      → I s
      → Ensures Keeps (receive_reading v i client c s)
  unfolding receive_reading
  receive_reading-Keeps v i client c s e =
      Returns.ensures_bind
        (on_net-Keeps (receive v.id_count v.errno c.sock_pt data_address (some (pos 2))) s e)
        λ x1 s1 e1.
          Returns.ensures_bind
            (on_net-Keeps (receive v.value_count v.errno c.sock_pt data_address (some (pos 8))) s1
              e1)
            λ x2 s2 e2.
              Returns.ensures_bind
                (on_net-Keeps (receive v.ts_count v.errno c.sock_pt data_address (some (pos 8))) s2
                  e2)
                λ (code, size) s3 e3. take_in-Keeps v i client c code size s3 e3

  pub receive_if-Keeps :
      (v : Visit V) (i : ℕ) (p : PollFd) (client : Ptr) (o : Option Client) (s : Manager V)
      → I s
      → Ensures Keeps (receive_if v i p client o s)
  receive_if-Keeps v i p client none s e = ensured e
  receive_if-Keeps v i p client (some c) s e =
      elim (Bool-cases (is_active v.now_before c && p.readable)) [
        | inl ready ↦ rw ready (receive_reading-Keeps v i client c s e)
        | inr idle ↦ rw idle (ensured e)
      ]

  module _ (fuel : ℕ) (element_of : Dplist Client → Ptr → Cmd (World Client) Ptr)
      (remove_node : Dplist Client → Ptr → Cmd Clients (Dplist Client)) (dummy : Ptr) where
    element_of-Keeps :
        (l : Dplist Client) (node : Ptr) (s : Manager V)
        → I s
        → Ensures Keeps ((if node == null then pure null else on_lists (element_of l node)) s)
    element_of-Keeps l node s e = elim (Bool-cases (node == null)) [
      | inl nil ↦ rw nil (ensured e)
      | inr good ↦ rw good (on_lists-Keeps (element_of l node) s e)
    ]

    pub find_client-Keeps :
        (fd : ℤ) (s : Manager V)
        → I s
        → Ensures Keeps (find_client fuel element_of remove_node dummy fd s)
    unfolding find_client
    find_client-Keeps fd s e =
        Returns.ensures_bind (on_lists-Keeps (set_dummy dummy fd) s e) λ x t e1.
          Returns.ensures_bind
            (on_lists-Keeps (get_reference_of_element fuel (some t.sock_list) dummy) t e1)
            λ node u e2.
              Returns.ensures_bind (element_of-Keeps t.sock_list node u e2) λ c w e3. ensured e3

    pub arrive-Keeps :
        (v : Visit V) (i : ℕ) (s : Manager V)
        → I s
        → Ensures Keeps (arrive fuel element_of remove_node dummy v i s)
    unfolding arrive
    arrive-Keeps v i s e = Returns.ensures_bind (slot-Keeps i s e) λ p t e1.
        Returns.ensures_bind (find_client-Keeps p.fd t e1) λ (node, client) u e2.
          Returns.ensures_bind (client_at-Keeps client u e2) λ c w e3.
            Returns.ensures_bind (receive_if-Keeps v i p client c w e3) λ x z e4. ensured e4
