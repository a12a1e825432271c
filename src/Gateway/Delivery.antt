-- ===== src/Gateway/Delivery.antt =====
-- A reading on its way through the gateway: from the connection manager's socket into the shared
-- buffer, and from there into the database.
use btvnlinux.Prelude.{
  ℕ, suc, ◌+◌, ◌≡◌, ◌≢◌, none, some, List, [], ◌∷◌, ◌++◌, arith, length, append-nil,
}
use mathlib.Core.Path.{subst}
use btvnlinux.Prelude.Int.{pos}
use btvnlinux.Memory.{Ptr, null, ok}
use btvnlinux.Memory.Cells.{Cells, contents, contents-append}
use btvnlinux.Memory.Returns
use btvnlinux.Memory.Returns.{Returns}
use btvnlinux.Config.{SensorData}
use btvnlinux.Sbuffer.{Sbuffer}
use btvnlinux.Sbuffer.Consumer.{Thread, own_run, rounds}
use btvnlinux.Sbuffer.Queue.{IsBuffer}
use btvnlinux.Tcpsock.Defs.{magic_cookie, Socket}
use btvnlinux.Connmgr.{Client}
use btvnlinux.Connmgr.Poll.{Manager}
use btvnlinux.Connmgr.Visit.{Visit, receive_reading}
use btvnlinux.Connmgr.Received.{receive_reading-Inserted}
use btvnlinux.SensorDb.Sqlite.{Sqlite, Formats}
use btvnlinux.SensorDb.Defs.{Store, store_reading}
use btvnlinux.SensorDb.Consume.{all_stored, rounds-all_stored}

module _ {V : Type 0} (P : Formats V) (S : Sqlite) where
  -- What the rounds of the storage manager send over the buffer that the manager `t` is left with:
  -- the readings `ds`, and no other.
  abbrev pub Delivers :
      Ptr → Store P S → SensorData V → List (SensorData V) → Unit {0} → Manager V → Type 0
  Delivers conn store d ds u t =
      own_run (
        rounds (store_reading P S conn) (length ds) d t.buffer
          (record { own = store; nodes = t.nodes }))
      ≡ ok tt (all_stored P S conn ds store)

  -- As many rounds as the buffer holds readings.
  rounds-exactly :
      (conn : Ptr) (t : Thread (SensorData V) (Store P S)) (d : SensorData V) (q : Sbuffer)
      (cs : Cells (SensorData V)) (ds : List (SensorData V))
      → IsBuffer t.nodes q cs
      → contents cs ≡ ds
      → own_run (rounds (store_reading P S conn) (length ds) d (some q) t)
        ≡ ok tt (all_stored P S conn ds t.own)
  rounds-exactly conn t d q cs ds is e =
      let exact : length (contents cs) + 0 ≡ length (contents cs) = omega arith in
      let base =
        rw (exact, append-nil (contents cs)) at (rounds-all_stored P S 0 conn t d q cs is).0 in
      subst
        (λ es.
          own_run (rounds (store_reading P S conn) (length es) d (some q) t)
          ≡ ok tt (all_stored P S conn es t.own))
        e base

  -- A reading that the connection manager has received reaches the database: if the storage manager
  -- then runs as many rounds as the buffer holds readings, it sends those that were there and then
  -- the new one, each once. The conditions are those of the reception: the client's socket is open,
  -- the last call of `recv` returns bytes, the buffer is linked as it should be, and `malloc` does
  -- not fail.
  pub receive_reading-Delivers :
      (conn : Ptr) (store : Store P S) (d : SensorData V) (v : Visit V) (i n : ℕ) (client : Ptr)
      (c : Client) (k : Socket) (s : Manager V) (b : Sbuffer) (cs : Cells (SensorData V))
      → c.sock_pt ≢ null
      → s.clients.net.sockets c.sock_pt ≡ some k
      → k.cookie ≡ magic_cookie
      → v.ts_count ≡ pos (suc n)
      → s.buffer ≡ some b
      → IsBuffer s.nodes b cs
      → v.block ≢ null
      → s.nodes v.block ≡ none
      → Returns
          (Delivers conn store d (contents cs ++ v.reading ∷ []))
          (receive_reading v i client c s)
  receive_reading-Delivers conn store d v i n client c k s b cs ne at bound count eb is room
        unused =
      Returns.mono
        (receive_reading-Inserted v i n client c k s b cs ne at bound count eb is room unused)
        λ u t (q, eq, is', els, fds, count, es). rw eq (
          rounds-exactly conn (record { own = store; nodes = t.nodes }) d q
            (cs ++ (v.block, v.reading) ∷ []) (contents cs ++ v.reading ∷ []) is'
            (contents-append cs ((v.block, v.reading) ∷ [])))
