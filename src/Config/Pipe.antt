-- ===== src/Config/Pipe.antt =====
-- Project/config.h: `write_pipe`, by which every part of the gateway reports to the log.
use btvnlinux.Prelude.{
  Bool, true, false, ℕ, List, [], ◌∷◌, ◌++◌, ◌≡◌, refl, ap, arith, ◌∙◌, append_assoc, append-nil,
  if◌then◌else◌,
}
use btvnlinux.Memory.{Cmd, ok, fault, Fault, pure, ◌>>◌}

-- The pipe's bytes, the oldest first, and whether its mutex is held by the thread that runs.
pub record Pipe : Type 0 where
  pub mutex_held : Bool
  pub bytes : List ℕ

-- `pthread_mutex_lock` by the holder of the mutex never returns.
abbrev pub lock_pipe : Cmd Pipe (Unit {0})
lock_pipe p = if p.mutex_held then fault Fault.deadlock else ok tt (record p { mutex_held = true })

abbrev pub unlock_pipe : Cmd Pipe (Unit {0})
unlock_pipe p = ok tt (record p { mutex_held = false })

-- The `strlen(buff)+1` bytes of a text: its characters and the byte 0.
abbrev pub framed : List ℕ → List ℕ
framed text = text ++ 0 ∷ []

-- `write_pipe` of a text without the byte 0. The pipe is taken to have room, and the `free` of the
-- text is left out.
unfoldable pub write_pipe : List ℕ → Cmd Pipe (Unit {0})
write_pipe text = do
  lock_pipe
  λ p. ok tt (record p { bytes = p.bytes ++ framed text })
  unlock_pipe

-- Reports in a row.
unfoldable pub write_all : List (List ℕ) → Cmd Pipe (Unit {0})
write_all [] = pure tt
write_all (t ∷ ts) = do write_pipe t; write_all ts

abbrev pub concat : List (List ℕ) → List ℕ
concat [] = []
concat (c ∷ cs) = c ++ concat cs

abbrev pub all_framed : List (List ℕ) → List (List ℕ)
all_framed [] = []
all_framed (t ∷ ts) = framed t ∷ all_framed ts

pub write_all-bytes :
    (ts : List (List ℕ)) (p : Pipe)
    → p.mutex_held ≡ false
    → write_all ts p
      ≡ ok tt (record { mutex_held = false; bytes = p.bytes ++ concat (all_framed ts) })
unfolding write_all write_pipe
write_all-bytes [] p free = ground (arith, free, append-nil p.bytes)
write_all-bytes (t ∷ ts) p free = rw free (
    write_all-bytes ts (record { mutex_held = false; bytes = p.bytes ++ framed t }) refl
    ∙ ap (λ bs. ok tt (record { mutex_held = false; bytes = bs }))
        (append_assoc p.bytes (framed t) (concat (all_framed ts))))
