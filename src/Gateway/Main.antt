-- ===== src/Gateway/Main.antt =====
-- Project/main.c: `main` itself, by the calls that it makes. Each call is recorded, and what the
-- operating system answers is an argument. What the log process and the threads do is the matter of
-- the modules beside this one.
use btvnlinux.Prelude.{
  ℕ, suc, ◌≡◌, refl, ◌||◌, inl, inr, Bool-cases, List, [], ◌∷◌, ◌==◌, if◌then◌else◌,
}
use btvnlinux.Prelude.Int.{ℤ, pos, eqb_ℤ, ltb_ℤ}
use btvnlinux.Memory.{Cmd, ok, pure, ◌>>◌}
use btvnlinux.Memory.Returns.{Returns, returns}
use btvnlinux.Tcpsock.Defs.{min_port, max_port}

pub data ThreadOf : Type 0 where
  conn_mgr : ThreadOf
  data_mgr : ThreadOf
  stor_mgr : ThreadOf

-- The calls, those on the pipe by its end: `log` is all that the log process does between closing
-- the writing end and closing the reading one.
pub data Act : Type 0 where
  pipe_made : Act
  pipe_message : Act
  pipe_mutex_made : Act
  forked : Act
  reading_closed : Act
  writing_closed : Act
  logged : Act
  buffer_made : Act
  stop_mutex_made : Act
  started : ThreadOf → Act
  joined : ThreadOf → Act
  child_waited : Act
  buffer_freed : Act
  pipe_mutex_gone : Act
  stop_mutex_gone : Act

-- The calls made, the last one first.
abbrev Acts : Type 0
Acts = List Act

abbrev act : Act → Cmd Acts (Unit {0})
act a s = ok tt (a ∷ s)

-- The branch of the log process.
pub log_branch : Cmd Acts (Unit {0})
log_branch = do act Act.writing_closed; act Act.logged; act Act.reading_closed

-- The branch of the gateway.
pub gateway_branch : Cmd Acts (Unit {0})
gateway_branch = do
  act Act.reading_closed
  act Act.buffer_made
  act Act.stop_mutex_made
  act (Act.started ThreadOf.conn_mgr)
  act (Act.started ThreadOf.data_mgr)
  act (Act.started ThreadOf.stor_mgr)
  act (Act.joined ThreadOf.conn_mgr)
  act (Act.joined ThreadOf.data_mgr)
  act (Act.joined ThreadOf.stor_mgr)
  act Act.writing_closed
  act Act.child_waited
  act Act.buffer_freed
  act Act.pipe_mutex_gone
  act Act.stop_mutex_gone

-- `if (0 == sensorGw) ... else ...`
pub branches : (sensor_gw : ℤ) → Cmd Acts (Unit {0})
unfolding log_branch gateway_branch
branches sensor_gw = if eqb_ℤ (pos 0) sensor_gw then log_branch else gateway_branch

-- What follows `fork`, given what it returned. The condition of the outer `if` is the assignment
-- `sensorGw = 0`, whose value is the one assigned.
pub after_fork : (sensor_gw : ℤ) → Cmd Acts (Unit {0})
unfolding branches
after_fork forked_pid =
    let sensor_gw = pos 0 in if eqb_ℤ sensor_gw (pos 0) then pure tt else branches sensor_gw

-- `main`, in either process: the status that it ends with, by `exit` or by `return`. `port` is what
-- `atoi` makes of the argument, `piped` and `forked_pid` what `pipe` and `fork` return.
pub main : (argc : ℕ) → (port piped forked_pid : ℤ) → Cmd Acts ℕ
unfolding after_fork
main argc port piped forked_pid =
    if argc == 2
    then (if ltb_ℤ max_port port || ltb_ℤ port min_port then pure 0 else do
      act Act.pipe_made
      if ltb_ℤ piped (pos 0) then act Act.pipe_message else pure tt
      act Act.pipe_mutex_made
      act Act.forked
      after_fork forked_pid
      pure 0)
    else pure 0

-- How often a thread is started or the log is written.
abbrev pub works : List Act → ℕ
works [] = 0
works (Act.started t ∷ more) = suc (works more)
works (Act.logged ∷ more) = suc (works more)
works (a ∷ more) = works more

-- Whatever its arguments are and whatever `pipe` and `fork` return, `main` ends with status 0, and
-- has started no thread and written no log.
pub main-works :
    (argc : ℕ) (port piped forked_pid : ℤ)
    → Returns (λ status acts. (status ≡ 0) × (works acts ≡ 0)) (main argc port piped forked_pid [])
unfolding main
main-works argc port piped forked_pid = elim (Bool-cases (argc == 2)) [
  | inr few ↦ rw few (returns (refl, refl))
  | inl two ↦ elim (Bool-cases (ltb_ℤ max_port port || ltb_ℤ port min_port)) [
    | inl outside ↦ rw (two, outside) (returns (refl, refl))
    | inr inside ↦ elim (Bool-cases (ltb_ℤ piped (pos 0))) [
      | inl bad ↦ rw (two, inside, bad) (returns (refl, refl))
      | inr good ↦ rw (two, inside, good) (returns (refl, refl))
    ]
  ]
]
