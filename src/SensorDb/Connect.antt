-- ===== src/SensorDb/Connect.antt =====
-- What `init_connection` leaves open.
use btvnlinux.Prelude.{
  ℕ, suc, ◌≡◌, refl, ◌≢◌, ◌⊎◌, inl, inr, true, false, none, ◌∷◌, arith, ◌==◌, ==_false, ==_iff, ◌∙◌,
  if◌then◌else◌, Bool-cases,
}
use btvnlinux.Prelude.Int.{eqb_ℤ}
use btvnlinux.Memory.{Ptr, null}
use btvnlinux.Memory.Returns.{Returns, returns}
use btvnlinux.SensorDb.Sqlite.{Statement, recreate, create_if_missing, Sqlite, Formats}
use btvnlinux.SensorDb.Defs.{
  Store, connected, not_connected, table_created, table_failed, sqlite_ok, init_connection,
}

-- What SQLite documents of its connections, counted by `live`: opening one makes one, whether it
-- succeeds or not, unless it gives NULL, which it does only with an error code; a statement opens
-- and closes none; closing one with success leaves one less, and closing NULL does nothing.
pub record Counts (S : Sqlite) (live : S.State → ℕ) : Type 0 where
  pub opened :
      (l : S.State)
      → live (S.open_db l).2 ≡ (if (S.open_db l).1 == null then live l else suc (live l))
  pub opened_ne : (l : S.State) → eqb_ℤ (S.open_db l).0 sqlite_ok ≡ true → (S.open_db l).1 ≢ null
  pub executed : (p : Ptr) (q : Statement) (l : S.State) → live (S.exec p q none l).1 ≡ live l
  pub closed :
      (p : Ptr) (l : S.State)
      → p ≢ null
      → eqb_ℤ (S.close_db p l).0 sqlite_ok ≡ true
      → suc (live (S.close_db p l).1) ≡ live l
  pub closed_null : (l : S.State) → live (S.close_db null l).1 ≡ live l

module _ {V : Type 0} (P : Formats V) (S : Sqlite) (live : S.State → ℕ) (law : Counts S live) where
  -- The statement that makes the table.
  abbrev table : ℕ → Statement
  table flag = if flag == 1 then recreate else create_if_missing

  -- The three outcomes: a connection; no connection, and none left open where it could be closed;
  -- and a connection that is left open, with no pointer to it.
  abbrev pub Outcome : Store P S → Ptr → Store P S → Type 0
  Outcome s p t =
      ((p ≢ null)
        × (live t.library ≡ suc (live s.library))
        × (t.events ≡ table_created ∷ connected ∷ s.events))
      ⊎ ((p ≡ null)
          × (eqb_ℤ (S.open_db s.library).0 sqlite_ok ≡ false)
          × ((eqb_ℤ (S.close_db (S.open_db s.library).1 (S.open_db s.library).2).0 sqlite_ok
                ≡ false)
              ⊎ (live t.library ≡ live s.library))
          × (t.events ≡ not_connected ∷ s.events))
      ⊎ ((p ≡ null)
          × (eqb_ℤ (S.open_db s.library).0 sqlite_ok ≡ true)
          × (live t.library ≡ suc (live s.library))
          × (t.events ≡ table_failed ∷ connected ∷ s.events))

  opened_live : (l : S.State) → (S.open_db l).1 ≢ null → live (S.open_db l).2 ≡ suc (live l)
  opened_live l ne = law.opened l ∙ (rw (==_false ne) refl)

  executed_live :
      (p : Ptr) (q : Statement) (l : S.State)
      → (S.open_db l).1 ≢ null
      → live (S.exec p q none (S.open_db l).2).1 ≡ suc (live l)
  executed_live p q l ne = law.executed p q (S.open_db l).2 ∙ opened_live l ne

  -- The close behind a failed open.
  closed_live :
      (l : S.State)
      → (eqb_ℤ (S.close_db (S.open_db l).1 (S.open_db l).2).0 sqlite_ok ≡ false)
        ⊎ (live (S.close_db (S.open_db l).1 (S.open_db l).2).1 ≡ live l)
  closed_live l = elim (Bool-cases ((S.open_db l).1 == null)) [
    | inl nil ↦
        let is_null : (S.open_db l).1 ≡ null = (==_iff (S.open_db l).1 null).0 nil in
        let same : live (S.open_db l).2 ≡ live l = law.opened l ∙ (rw nil refl) in
        inr (rw is_null (law.closed_null (S.open_db l).2 ∙ same))
    | inr some_db ↦
        let ne : (S.open_db l).1 ≢ null = ground arith in
        elim (Bool-cases (eqb_ℤ (S.close_db (S.open_db l).1 (S.open_db l).2).0 sqlite_ok)) [
          | inr busy ↦ inl busy
          | inl good ↦
              inr (
                omega (arith, law.closed (S.open_db l).1 (S.open_db l).2 ne good, opened_live l ne))
        ]
  ]

  -- A failed `sqlite3_open`.
  not_opened :
      (flag : ℕ) (s : Store P S)
      → eqb_ℤ (S.open_db s.library).0 sqlite_ok ≡ false
      → Returns (Outcome s) (init_connection P S flag s)
  unfolding init_connection
  not_opened flag s bad = rw bad (returns (inr (inl (refl, bad, closed_live s.library, refl))))

  -- Whatever the database answers, `init_connection` returns a new connection, or it returns NULL
  -- because the database could not be opened, with no connection left if it could be closed; or it
  -- returns NULL because the table could not be made, and the new connection stays open.
  pub init_connection-Outcome :
      (flag : ℕ) (s : Store P S) → Returns (Outcome s) (init_connection P S flag s)
  unfolding init_connection
  init_connection-Outcome flag s = elim (Bool-cases (eqb_ℤ (S.open_db s.library).0 sqlite_ok)) [
    | inr bad ↦ not_opened flag s bad
    | inl good ↦
        let ne = law.opened_ne s.library good in
        elim (Bool-cases (
          eqb_ℤ (S.exec (S.open_db s.library).1 (table flag) none (S.open_db s.library).2).0
            sqlite_ok)) [
              | inl made ↦
                  rw (good, ==_false ne, made)
                    (returns (inl (ne, executed_live _ _ s.library ne, refl)))
              | inr lost ↦
                  rw (good, ==_false ne, lost)
                    (returns (inr (inr (refl, good, executed_live _ _ s.library ne, refl))))
            ]
  ]
