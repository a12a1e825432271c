-- ===== src/Tcpsock/Lifecycle.antt =====
-- What opening a socket leaves behind, on success and on failure.
use btvnlinux.Prelude.{
  ℕ, suc, ◌≡◌, refl, ◌≢◌, ◌⊎◌, inl, inr, true, false, Option, none, some, List, [], ◌∷◌, arith,
  ◌==◌, Bool-cases, ==_false,
}
use btvnlinux.Prelude.Int.{ℤ, pos, ltb_ℤ}
use btvnlinux.Memory.{Ptr, null, Heap, ok, write}
use btvnlinux.Memory.Returns.{Returns, returns}
use btvnlinux.Tcpsock.Defs.{
  Code, no_error, address_error, memory_error, sockop_error, magic_cookie, Socket, Call, Net,
  Replies, to_port, unbound, create,
}
use btvnlinux.Tcpsock.Guards.{Holds}
use btvnlinux.Tcpsock.Open.{out_of_range, failed, passive_open}

-- The store while a socket is being opened.
abbrev opening : Net → Ptr → ℤ → List Call → Net
opening w p d cs = record w {
  sockets = write (write w.sockets p (some unbound)) p (some (record unbound { sd = d }));
  calls = cs;
}

-- The calls that set the descriptor up, the last one first.
abbrev pub set_up : Net → Replies → ℤ → List Call
set_up w r port = Call.listen r.socket ∷ Call.bind r.socket (to_port port) ∷ Call.socket ∷ w.calls

-- The socket that `tcp_passive_open` makes.
abbrev pub listening : Replies → ℤ → Socket
listening r port = record { cookie = magic_cookie; sd = r.socket; ip_addr = null; port = port }

module _ (w : Net) (r : Replies) (port : ℤ) (range : out_of_range port ≡ false)
    (room : r.block ≢ null) (descriptor : ltb_ℤ r.socket (pos 0) ≡ false) where
  pub passive_open-ok :
      failed r.bind ≡ false
      → failed r.listen ≡ false
      → passive_open r port w
        ≡ ok
            (no_error, some r.block)
            (record w {
              sockets =
                  write
                    (write
                      (write w.sockets r.block (some unbound))
                      r.block
                      (some (record unbound { sd = r.socket })))
                    r.block
                    (some (listening r port));
              calls = set_up w r port;
            })
  unfolding passive_open create
  passive_open-ok fb fl = rw (range, ==_false room) (ground arith)

  module _ (unused : w.sockets r.block ≡ none) where
    bind_failed :
        failed r.bind ≡ true
        → (g : Heap Socket) × (passive_open r port w
            ≡ ok
                (sockop_error, none)
                (record w {
                  sockets = g;
                  calls = Call.bind r.socket (to_port port) ∷ Call.socket ∷ w.calls;
                }))
          × ((a : Ptr) → g a ≡ w.sockets a)
    unfolding passive_open create
    bind_failed fb = (
      write (opening w r.block r.socket []).sockets r.block none,
      rw (range, ==_false room) (ground arith),
      λ a. ground arith,
    )

    listen_failed :
        failed r.bind ≡ false
        → failed r.listen ≡ true
        → (g : Heap Socket) × (passive_open r port w
            ≡ ok (sockop_error, none) (record w { sockets = g; calls = set_up w r port }))
          × ((a : Ptr) → g a ≡ w.sockets a)
    unfolding passive_open create
    listen_failed fb fl = (
      write (opening w r.block r.socket []).sockets r.block none,
      rw (range, ==_false room) (ground arith),
      λ a. ground arith,
    )

-- How often a descriptor was asked for, and how often one was closed.
abbrev pub opens : List Call → ℕ
opens [] = 0
opens (Call.socket ∷ cs) = suc (opens cs)
opens (Call.bind d n ∷ cs) = opens cs
opens (Call.listen d ∷ cs) = opens cs
opens (Call.connect d n ∷ cs) = opens cs
opens (Call.accept d ∷ cs) = suc (opens cs)
opens (Call.shutdown d ∷ cs) = opens cs
opens (Call.close d ∷ cs) = opens cs

abbrev pub closes : List Call → ℕ
closes [] = 0
closes (Call.socket ∷ cs) = closes cs
closes (Call.bind d n ∷ cs) = closes cs
closes (Call.listen d ∷ cs) = closes cs
closes (Call.connect d n ∷ cs) = closes cs
closes (Call.accept d ∷ cs) = closes cs
closes (Call.shutdown d ∷ cs) = closes cs
closes (Call.close d ∷ cs) = suc (closes cs)

-- Where `bind` or `listen` fails on a descriptor, `tcp_passive_open` returns TCP_SOCKOP_ERROR and
-- leaves no socket behind, but the descriptor that it asked for is not closed.
pub passive_open-leak :
    (w : Net) (r : Replies) (port : ℤ)
    → out_of_range port ≡ false
    → r.block ≢ null
    → w.sockets r.block ≡ none
    → ltb_ℤ r.socket (pos 0) ≡ false
    → (failed r.bind ≡ true) ⊎ ((failed r.bind ≡ false) × (failed r.listen ≡ true))
    → Returns
        (λ (c, o) v.
          (c ≡ sockop_error)
          × (o ≡ none)
          × ((a : Ptr) → v.sockets a ≡ w.sockets a)
          × (opens v.calls ≡ suc (opens w.calls))
          × (closes v.calls ≡ closes w.calls))
        (passive_open r port w)
passive_open-leak w r port range room unused descriptor (inl fb) =
    let (g, e, same) = bind_failed w r port range room descriptor unused fb in
    rw e (returns (refl, refl, same, refl, refl))
passive_open-leak w r port range room unused descriptor (inr (fb, fl)) =
    let (g, e, same) = listen_failed w r port range room descriptor unused fb fl in
    rw e (returns (refl, refl, same, refl, refl))

-- What `tcp_passive_open` returns and leaves: either a failure, with the sockets as they were, or
-- the address of a socket that listens, with the other sockets as they were.
abbrev pub Opened : Net → Replies → ℤ → Code × Option Ptr → Net → Type 0
Opened w r port (c, o) v =
    ((c ≢ no_error) × (o ≡ none) × ((a : Ptr) → v.sockets a ≡ w.sockets a))
    ⊎ ((c ≡ no_error)
        × (o ≡ some r.block)
        × Holds v r.block (listening r port)
        × ((a : Ptr) → a ≢ r.block → v.sockets a ≡ w.sockets a))

gave_up :
    (w : Net) (r : Replies) (port : ℤ) (c : Code) (v : Net)
    → c ≢ no_error
    → ((a : Ptr) → v.sockets a ≡ w.sockets a)
    → Returns (Opened w r port) (ok (c, none) v)
gave_up w r port c v bad same = returns (inl (bad, refl, same))

passive_open-no_descriptor :
    (w : Net) (r : Replies) (port : ℤ)
    → out_of_range port ≡ false
    → r.block ≢ null
    → w.sockets r.block ≡ none
    → ltb_ℤ r.socket (pos 0) ≡ true
    → Returns (Opened w r port) (passive_open r port w)
unfolding passive_open create
passive_open-no_descriptor w r port range room unused bad =
    let e : passive_open r port w
        ≡ ok (sockop_error, none)
            (record w {
              sockets = write (opening w r.block r.socket []).sockets r.block none;
              calls = Call.socket ∷ w.calls;
            }) =
      rw (range, ==_false room) (ground arith) in
    rw e (gave_up w r port sockop_error _ (ground arith) (λ a. ground arith))

passive_open-out :
    (w : Net) (r : Replies) (port : ℤ)
    → out_of_range port ≡ true
    → Returns (Opened w r port) (passive_open r port w)
unfolding passive_open create
passive_open-out w r port out = rw out (gave_up w r port address_error w (ground arith) (λ a. refl))

passive_open-no_memory :
    (w : Net) (r : Replies) (port : ℤ)
    → out_of_range port ≡ false
    → (r.block == null) ≡ true
    → Returns (Opened w r port) (passive_open r port w)
unfolding passive_open create
passive_open-no_memory w r port range nil =
    rw (range, nil) (gave_up w r port memory_error w (ground arith) (λ a. refl))

-- For every port, and whatever the operating system answers, `tcp_passive_open` either fails with
-- the sockets as they were and the caller's pointer not written, or returns a bound socket with the
-- port and the descriptor and leaves the other sockets as they were, if `malloc` returns NULL or the
-- address of no socket in use.
pub passive_open-Opened :
    (w : Net) (r : Replies) (port : ℤ)
    → (r.block ≢ null → w.sockets r.block ≡ none)
    → Returns (Opened w r port) (passive_open r port w)
passive_open-Opened w r port fresh = elim (Bool-cases (out_of_range port)) [
  | inl out ↦ passive_open-out w r port out
  | inr range ↦ elim (Bool-cases (r.block == null)) [
    | inl nil ↦ passive_open-no_memory w r port range nil
    | inr some_block ↦
        let room : r.block ≢ null = ground arith in
        let unused = fresh room in
        elim (Bool-cases (ltb_ℤ r.socket (pos 0))) [
          | inl bad ↦ passive_open-no_descriptor w r port range room unused bad
          | inr descriptor ↦ elim (Bool-cases (failed r.bind)) [
            | inl fb ↦
                let (g, e, same) = bind_failed w r port range room descriptor unused fb in
                rw e (gave_up w r port sockop_error _ (ground arith) same)
            | inr fb ↦ elim (Bool-cases (failed r.listen)) [
              | inl fl ↦
                  let (g, e, same) = listen_failed w r port range room descriptor unused fb fl in
                  rw e (gave_up w r port sockop_error _ (ground arith) same)
              | inr fl ↦
                  rw (passive_open-ok w r port range room descriptor fb fl)
                    (returns (inr (refl, refl, (room, (ground arith)), λ a ne. ground arith)))
            ]
          ]
        ]
  ]
]
