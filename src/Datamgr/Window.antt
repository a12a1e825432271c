-- ===== src/Datamgr/Window.antt =====
-- The window of the last readings of a sensor, and the average over it.
use btvnlinux.Prelude.{
  ℕ, zero, suc, ◌+◌, ◌<◌, ◌≤◌, ◌≡◌, refl, sym, ap, ◌∙◌, true, false, List, [], ◌∷◌, ◌++◌, arith,
  length, ltb, set, replicate, append-nil, append_assoc, length-append, ◌-◌,
}
use btvnlinux.Config.{Doubles, SensorData}
use btvnlinux.Datamgr.{run_avg_length, SensorNode, free_slot, total, record_reading}

module _ (F : Doubles) where
  open F use {Value, zero_value, add, divide, above, is_zero_value}

  -- No slot of the window counts as free.
  abbrev pub AllNonzero : List Value → Type 0
  AllNonzero [] = Unit {0}
  AllNonzero (v ∷ vs) = (is_zero_value v ≡ false) × AllNonzero vs

  abbrev pub values : List (SensorData Value) → List Value
  values [] = []
  values (r ∷ rs) = r.value ∷ values rs

  -- All readings in turn.
  pub record_all : SensorNode Value → List (SensorData Value) → SensorNode Value
  record_all n [] = n
  record_all n (r ∷ rs) = record_all (record_reading F n r) rs

  pub free_slot-full : (vs : List Value) → AllNonzero vs → free_slot F vs ≡ length vs
  unfolding free_slot
  free_slot-full [] h = refl
  free_slot-full (v ∷ vs) (h, hs) = rw h (ap suc (free_slot-full vs hs))

  free_slot-prefix :
      (vs : List Value) (z : Value) (zs : List Value)
      → AllNonzero vs
      → is_zero_value z ≡ true
      → free_slot F (vs ++ z ∷ zs) ≡ length vs
  unfolding free_slot
  free_slot-prefix [] z zs h hz = rw hz
  free_slot-prefix (v ∷ vs) z zs (h, hs) hz = rw h (ap suc (free_slot-prefix vs z zs hs hz))

  set-prefix :
      (vs : List Value) (z v : Value) (zs : List Value)
      → set (vs ++ z ∷ zs) (length vs) v ≡ vs ++ v ∷ zs
  set-prefix [] z v zs = refl
  set-prefix (w ∷ vs) z v zs = ap (λ t. w ∷ t) (set-prefix vs z v zs)

  AllNonzero-snoc :
      (vs : List Value) (v : Value)
      → AllNonzero vs
      → is_zero_value v ≡ false
      → AllNonzero (vs ++ v ∷ [])
  AllNonzero-snoc [] v h hv = (hv, tt)
  AllNonzero-snoc (w ∷ vs) v (h, hs) hv = (h, AllNonzero-snoc vs v hs hv)

  -- While fewer than RUN_AVG_LENGTH readings are held, a reading takes the first free slot, and
  -- the average is left as it was.
  pub record_reading-fills :
      (n : SensorNode Value) (r : SensorData Value) (vs : List Value) (z : Value) (zs : List Value)
      → n.data_list ≡ vs ++ z ∷ zs
      → length vs < run_avg_length
      → AllNonzero vs
      → is_zero_value z ≡ true
      → ((record_reading F n r).data_list ≡ vs ++ r.value ∷ zs)
        × ((record_reading F n r).sensor ≡ n.sensor)
  unfolding record_reading
  record_reading-fills n r vs z zs e lt h hz =
      let slot : free_slot F n.data_list ≡ length vs = rw e (free_slot-prefix vs z zs h hz) in
      let room : ltb (length vs) 5 ≡ true = ground arith in
      rw (slot, room) ((rw (e, set-prefix vs z r.value zs)), refl)

  -- The readings in turn, as the slots are filled from the first free one.
  fills_from :
      (n : SensorNode Value) (rs : List (SensorData Value)) (vs : List Value) (m : ℕ)
      → n.data_list ≡ vs ++ replicate m zero_value
      → length vs + m ≤ run_avg_length
      → length rs ≤ m
      → AllNonzero vs
      → AllNonzero (values rs)
      → is_zero_value zero_value ≡ true
      → ((record_all n rs).data_list ≡ (vs ++ values rs) ++ replicate (m - length rs) zero_value)
        × ((record_all n rs).sensor ≡ n.sensor)
  unfolding record_all
  fills_from n [] vs m e lt le h hr hz =
      (let em : m - 0 ≡ m = omega arith in ((rw (append-nil vs, em) e), refl))
  fills_from n (r ∷ rs) vs zero e lt le h hr hz = absurd (omega arith)
  fills_from n (r ∷ rs) vs (suc m) e lt le h hr hz =
      let (ed, es) =
        record_reading-fills n r vs zero_value (replicate m zero_value) e (omega arith) h hz in
      let (fd, fs) =
        fills_from (record_reading F n r) rs (vs ++ r.value ∷ []) m
          (ed ∙ sym (append_assoc vs (r.value ∷ []) (replicate m zero_value)))
          (omega (arith, length-append vs (r.value ∷ []))) (omega arith)
          (AllNonzero-snoc vs r.value h hr.0) hr.1 hz in
      let less : suc m - suc (length rs) ≡ m - length rs = omega arith in
      (
        (rw less (
            fd
            ∙ ap (λ t. t ++ replicate (m - length rs) zero_value)
                (append_assoc vs (r.value ∷ []) (values rs)))),
        fs ∙ es,
      )

  -- From an empty window, up to RUN_AVG_LENGTH readings that are not 0 are held in the order in
  -- which they came, the other slots stay 0, and the average is not computed.
  pub record_all-fills :
      (n : SensorNode Value) (rs : List (SensorData Value))
      → n.data_list ≡ replicate run_avg_length zero_value
      → length rs ≤ run_avg_length
      → AllNonzero (values rs)
      → is_zero_value zero_value ≡ true
      → ((record_all n rs).data_list
          ≡ values rs ++ replicate (run_avg_length - length rs) zero_value)
        × ((record_all n rs).sensor ≡ n.sensor)
  record_all-fills n rs e le h hz = fills_from n rs [] run_avg_length e (omega arith) le tt h hz

  pub record_reading-full :
      (n : SensorNode Value) (r : SensorData Value) (a b c d e : Value)
      → n.data_list ≡ a ∷ b ∷ c ∷ d ∷ e ∷ []
      → AllNonzero (a ∷ b ∷ c ∷ d ∷ e ∷ [])
      → ((record_reading F n r).data_list ≡ b ∷ c ∷ d ∷ e ∷ e ∷ [])
        × ((record_reading F n r).sensor.value
            ≡ divide (total F zero_value (b ∷ c ∷ d ∷ e ∷ e ∷ [])) 5)
  unfolding record_reading
  record_reading-full n r a b c d e eq h =
      let slot : free_slot F n.data_list ≡ 5 = rw eq (free_slot-full (a ∷ b ∷ c ∷ d ∷ e ∷ []) h) in
      rw slot (rw eq (refl, refl))

  -- The average of a window that holds `e` in every slot.
  abbrev pub frozen_average : Value → Value
  frozen_average e = divide (total F zero_value (replicate run_avg_length e)) run_avg_length

  stays_frozen :
      (n : SensorNode Value) (rs : List (SensorData Value)) (e : Value)
      → n.data_list ≡ replicate run_avg_length e
      → n.sensor.value ≡ frozen_average e
      → is_zero_value e ≡ false
      → ((record_all n rs).data_list ≡ replicate run_avg_length e)
        × ((record_all n rs).sensor.value ≡ frozen_average e)
  unfolding record_all
  stays_frozen n [] e ed ev h = (ed, ev)
  stays_frozen n (r ∷ rs) e ed ev h =
      let (fd, fv) = record_reading-full n r e e e e e ed (h, (h, (h, (h, (h, tt))))) in
      stays_frozen (record_reading F n r) rs e fd fv h

  -- Once the window is full no reading enters it: after four more readings every slot holds the
  -- last value of the full window, and the average is the same from then on, whatever is read.
  pub record_all-frozen :
      (n : SensorNode Value) (a b c d e : Value) (p q s t : SensorData Value)
      (rs : List (SensorData Value))
      → n.data_list ≡ a ∷ b ∷ c ∷ d ∷ e ∷ []
      → AllNonzero (a ∷ b ∷ c ∷ d ∷ e ∷ [])
      → ((record_all n (p ∷ q ∷ s ∷ t ∷ rs)).data_list ≡ replicate run_avg_length e)
        × ((record_all n (p ∷ q ∷ s ∷ t ∷ rs)).sensor.value ≡ frozen_average e)
  unfolding record_all
  record_all-frozen n a b c d e p q s t rs ed (ha, (hb, (hc, (hd, (he, u))))) =
      let full = record_reading-full in
      let n1 = record_reading F n p in
      let n2 = record_reading F n1 q in
      let n3 = record_reading F n2 s in
      let e1 = (full n p a b c d e ed (ha, (hb, (hc, (hd, (he, tt)))))).0 in
      let e2 = (full n1 q b c d e e e1 (hb, (hc, (hd, (he, (he, tt)))))).0 in
      let e3 = (full n2 s c d e e e e2 (hc, (hd, (he, (he, (he, tt)))))).0 in
      let (e4, v4) = full n3 t d e e e e e3 (hd, (he, (he, (he, (he, tt))))) in
      stays_frozen (record_reading F n3 t) rs e e4 v4 he

  -- No reading changes the time that `datamgr_get_last_modified` returns, nor the sensor's
  -- identifier or room.
  pub record_reading-keeps :
      (n : SensorNode Value) (r : SensorData Value)
      → ((record_reading F n r).sensor.ts ≡ n.sensor.ts)
        × ((record_reading F n r).sensor.id ≡ n.sensor.id)
        × ((record_reading F n r).room_id ≡ n.room_id)
        × ((record_reading F n r).last_modified ≡ r.ts)
  unfolding record_reading
  record_reading-keeps n r = ground arith
