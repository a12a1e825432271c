-- ===== src/Tcpsock/Closing.antt =====
-- What closing a socket gives back that was opened to listen.
use btvnlinux.Prelude.{
  ◌≡◌, refl, ◌≢◌, inl, inr, false, Option, none, some, ◌∷◌, arith, ◌==◌, if◌then◌else◌, Bool-cases,
  ==_false,
}
use btvnlinux.Prelude.Int.{ℤ, pos, negsuc, eqb_ℤ, ltb_ℤ}
use btvnlinux.Memory.{Ptr, null, Heap, ok, write, and_then}
use btvnlinux.Memory.Returns.{Returns, returns}
use btvnlinux.Tcpsock.Defs.{Code, no_error, Socket, Call, Net, Replies, unbound}
use btvnlinux.Tcpsock.Open.{out_of_range, failed, passive_open, close}
use btvnlinux.Tcpsock.Lifecycle.{set_up, listening, passive_open-ok}

-- What is left when a listening socket is closed that was opened in the store `w`.
abbrev pub Closed : Net → Replies → (port result : ℤ) → Code × Option Ptr → Net → Type 0
Closed w r port result (c, o) v =
    (c ≡ no_error)
    × (o ≡ some null)
    × ((a : Ptr) → v.sockets a ≡ w.sockets a)
    × (v.strings ≡ w.strings)
    × (v.calls ≡ (
        if eqb_ℤ result (negsuc 0)
        then Call.shutdown r.socket ∷ set_up w r port
        else Call.close r.socket ∷ Call.shutdown r.socket ∷ set_up w r port))

-- A socket that was not in the store, written and freed again.
cleared :
    (w : Net) (h : Heap Socket) (p : Ptr)
    → w.sockets p ≡ none
    → ((a : Ptr) → a ≢ p → h a ≡ w.sockets a)
    → (a : Ptr) → write (write h p (some unbound)) p none a ≡ w.sockets a
cleared w h p unused others a = elim (Bool-cases (a == p)) [
  | inl e ↦ ground arith
  | inr e ↦ let ne : a ≢ p = ground arith in ground (arith, others a ne)
]

-- `tcp_close` of a listening socket, in a store that differs from `w` in that socket.
close-listening :
    (w v : Net) (r : Replies) (port result : ℤ)
    → r.block ≢ null
    → w.sockets r.block ≡ none
    → ltb_ℤ r.socket (pos 0) ≡ false
    → v.sockets r.block ≡ some (listening r port)
    → ((a : Ptr) → a ≢ r.block → v.sockets a ≡ w.sockets a)
    → v.strings ≡ w.strings
    → v.calls ≡ set_up w r port
    → Returns (Closed w r port result) (close result (some r.block) v)
unfolding close
close-listening w v r port result room unused descriptor at others strings calls =
    elim (Bool-cases (eqb_ℤ result (negsuc 0))) [
      | inl bad ↦
          let e : close result (some r.block) v
              ≡ ok (no_error, some null)
                  (record v {
                    sockets = write (write v.sockets r.block (some unbound)) r.block none;
                    calls = Call.shutdown r.socket ∷ v.calls;
                  }) =
            rw (==_false room, at) (ground arith) in
          rw e (
            returns (
              refl,
              refl,
              cleared w v.sockets r.block unused others,
              strings,
              (rw (bad, calls) refl),
            ))
      | inr good ↦
          let e : close result (some r.block) v
              ≡ ok (no_error, some null)
                  (record v {
                    sockets = write (write v.sockets r.block (some unbound)) r.block none;
                    calls = Call.close r.socket ∷ Call.shutdown r.socket ∷ v.calls;
                  }) =
            rw (==_false room, at) (ground arith) in
          rw e (
            returns (
              refl,
              refl,
              cleared w v.sockets r.block unused others,
              strings,
              (rw (good, calls) refl),
            ))
    ]

-- A socket that `tcp_passive_open` made is closed by `tcp_close`: the sockets are as they were
-- before it was opened, the caller's pointer is NULL, and the descriptor is shut down and, unless
-- that fails, closed.
pub passive_open-close :
    (w : Net) (r : Replies) (port result : ℤ)
    → out_of_range port ≡ false
    → r.block ≢ null
    → w.sockets r.block ≡ none
    → ltb_ℤ r.socket (pos 0) ≡ false
    → failed r.bind ≡ false
    → failed r.listen ≡ false
    → Returns (Closed w r port result) (and_then (passive_open r port w) (λ (c, o). close result o))
passive_open-close w r port result range room unused descriptor fb fl =
    rw (passive_open-ok w r port range room descriptor fb fl) (
      close-listening w _ r port result room unused descriptor (ground arith) (λ a ne. ground arith)
        refl refl)
