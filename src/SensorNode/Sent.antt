-- ===== src/SensorNode/Sent.antt =====
-- What the simulated sensor has sent once its loop ends.
use btvnlinux.Prelude.{
  ℕ, zero, suc, ◌≡◌, refl, ap, ◌∙◌, ◌≢◌, some, List, [], ◌∷◌, ◌++◌, arith, append_assoc, append-nil,
}
use btvnlinux.Prelude.Int.{ℤ, pos}
use btvnlinux.Memory.{Ptr, null, ok}
use btvnlinux.Config.{SensorData}
use btvnlinux.Tcpsock.Defs.{Socket, magic_cookie}
use btvnlinux.Tcpsock.Transfer.{Errno, send}
use btvnlinux.SensorNode.{
  Field, id_field, value_field, ts_field, Round, Node, send_field, send_reading, send_readings,
  measured,
}

module _ {V : Type 0} where
  -- All counts of a round are positive.
  abbrev pub Accepted : Round V → Type 0
  Accepted r =
      ((n : ℕ) × (r.id_count ≡ pos (suc n)))
      × ((n : ℕ) × (r.value_count ≡ pos (suc n)))
      × ((n : ℕ) × (r.ts_count ≡ pos (suc n)))

  -- The readings of the rounds, and their fields.
  abbrev pub readings : (i : ℕ) → (ℕ → Round V) → SensorData V → List (SensorData V)
  readings zero find d = []
  readings (suc i) find d = measured (find i) d ∷ readings i find (measured (find i) d)

  abbrev pub fields : List (SensorData V) → List (Field V)
  fields [] = []
  fields (d ∷ ds) = id_field d.id ∷ value_field d.value ∷ ts_field d.ts ∷ fields ds

  send_field-ok :
      (n : ℕ) (errno : Errno) (client : Ptr) (bytes : ℤ) (f : Field V) (k : Socket) (s : Node V)
      → client ≢ null
      → s.net.sockets client ≡ some k
      → k.cookie ≡ magic_cookie
      → send_field (pos (suc n)) errno client bytes f s
        ≡ ok tt (record s { sent = s.sent ++ f ∷ [] })
  unfolding send_field send
  send_field-ok n errno client bytes f k s ne at bound = ground arith

  -- A round.
  abbrev after : Node V → List (SensorData V) → Node V
  after s ds = record s { sent = s.sent ++ fields ds; log = s.log ++ ds }

  send_reading-ok :
      (r : Round V) (client : Ptr) (d : SensorData V) (k : Socket) (s : Node V)
      → Accepted r
      → client ≢ null
      → s.net.sockets client ≡ some k
      → k.cookie ≡ magic_cookie
      → send_reading r client d s ≡ ok tt (after s (d ∷ []))
  unfolding send_reading
  send_reading-ok r client d k s ((n, en), (m, em), (l, el)) ne at bound =
      let one = id_field d.id ∷ [] in
      let two = value_field d.value ∷ [] in
      let three = ts_field d.ts ∷ [] in
      let s1 = record s { sent = s.sent ++ one } in
      let s2 = record s { sent = (s.sent ++ one) ++ two } in
      rw
        (
          send_reading,
          en,
          em,
          el,
          send_field-ok n r.errno client (pos 2) (id_field d.id) k s ne at bound,
          send_field-ok m r.errno client (pos 8) (value_field d.value) k s1 ne at bound,
          send_field-ok l r.errno client (pos 8) (ts_field d.ts) k s2 ne at bound,
        )
        (ap (λ fs. ok tt (record s { sent = fs; log = s.log ++ d ∷ [] }))
          (append_assoc (s.sent ++ one) two three ∙ append_assoc s.sent one (two ++ three)))

  -- If every call of `sendto` returns bytes on the open socket, the loop ends; it has handed over
  -- the identifier, the value and the time of each reading, in this order and the readings in
  -- theirs, and the log has a line for each.
  pub send_readings-after :
      (i : ℕ) (find : ℕ → Round V) (client : Ptr) (d : SensorData V) (k : Socket) (s : Node V)
      → ((j : ℕ) → Accepted (find j))
      → client ≢ null
      → s.net.sockets client ≡ some k
      → k.cookie ≡ magic_cookie
      → send_readings i find client d s
        ≡ ok tt (record s {
          sent = s.sent ++ fields (readings i find d);
          log = s.log ++ readings i find d;
        })
  unfolding send_readings
  send_readings-after zero find client d k s all ne at bound =
      rw (append-nil s.sent, append-nil s.log) refl
  send_readings-after (suc i) find client d k s all ne at bound =
      let e = measured (find i) d in
      rw (send_reading-ok (find i) client e k s (all i) ne at bound) (
        send_readings-after i find client e k (after s (e ∷ [])) all ne at bound
        ∙ (rw
            (
              append_assoc s.sent (fields (e ∷ [])) (fields (readings i find e)),
              append_assoc s.log (e ∷ []) (readings i find e),
            )
            refl))
