-- ===== src/Gateway/Log.antt =====
-- The log process of `main`: it reads the pipe and writes a numbered line for every read.
use btvnlinux.Prelude.{
  ℕ, suc, ◌+◌, ◌≡◌, refl, ap, ◌∙◌, ◌≢◌, Bool, true, false, Option, none, some, List, [], ◌∷◌, ◌++◌,
  arith, ◌==◌, ==_false, length, drop, append_assoc, append-nil, if◌then◌else◌,
}
use btvnlinux.Memory.{Run, ok, fault, Fault, Cmd}

-- PIPE_SIZE
abbrev pub pipe_size : ℕ
pipe_size = 100

-- A line of the log: the sequence number and the text; the last one says how the pipe ended. (The
-- source numbers one of them by `sequence`, which is read as `seq_num`.)
pub data Line : Type 0 where
  entry : (seq : ℕ) → (text : List ℕ) → Line
  read_failed : (seq : ℕ) → Line
  terminated : (seq : ℕ) → Line

-- What `%s` prints of an array: the bytes in front of the first 0; none where there is no 0, and
-- the code reads past the array.
abbrev push : ℕ → Option (List ℕ) → Option (List ℕ)
push b none = none
push b (some t) = some (b ∷ t)

abbrev pub c_string : List ℕ → Option (List ℕ)
c_string [] = none
c_string (b ∷ bs) = if b == 0 then some [] else push b (c_string bs)

-- `read` into the array: the bytes that were read, and behind them what the array held.
abbrev pub read_into : (chunk buf : List ℕ) → List ℕ
read_into chunk buf = chunk ++ drop (length chunk) buf

-- The loop over the reads that return bytes. The state is the log.
unfoldable pub log_loop : List (List ℕ) → (recv_buf : List ℕ) → (seq_num : ℕ) → Cmd (List Line) ℕ
log_loop [] recv_buf seq_num log = ok seq_num log
log_loop (c ∷ cs) recv_buf seq_num log = elim (c_string (read_into c recv_buf)) [
  | none ↦ fault Fault.segfault
  | some t ↦ log_loop cs (read_into c recv_buf) (suc seq_num) (log ++ entry seq_num t ∷ [])
]

-- The log process, `opened` telling whether the log file could be opened, `chunks` what the reads
-- return until one returns 0, or -1 if `failed`. (The source tests `fp_sensor_map`, which is read as
-- `log_file`.)
unfoldable pub log_process :
    (opened : Bool)
    → (chunks : List (List ℕ)) → (failed : Bool) → (recv_buf : List ℕ) → Run (List Line) (Unit {0})
unfolding log_loop
log_process false chunks failed recv_buf = fault (Fault.exit 1)
log_process true chunks failed recv_buf = elim (log_loop chunks recv_buf 0 []) [
  | ok n log ↦ ok tt (log ++ (if failed then read_failed n else terminated n) ∷ [])
  | fault f ↦ fault f
  | Run.out_of_fuel ↦ Run.out_of_fuel
]

-- A text with no byte 0 in it.
abbrev pub HasNoZero : List ℕ → Type 0
HasNoZero [] = Unit {0}
HasNoZero (b ∷ bs) = (b ≢ 0) × HasNoZero bs

c_string-framed : (t rest : List ℕ) → HasNoZero t → c_string (t ++ 0 ∷ rest) ≡ some t
c_string-framed [] rest h = refl
c_string-framed (b ∷ t) rest (ne, h) = rw (==_false ne, c_string-framed t rest h) refl

-- Each chunk is a text, the byte 0, and what stood behind it in the pipe.
abbrev pub chunks_of : List (List ℕ × List ℕ) → List (List ℕ)
chunks_of [] = []
chunks_of ((t, rest) ∷ ts) = (t ++ 0 ∷ rest) ∷ chunks_of ts

abbrev pub numbered : ℕ → List (List ℕ × List ℕ) → List Line
numbered n [] = []
numbered n ((t, rest) ∷ ts) = entry n t ∷ numbered (suc n) ts

abbrev pub AllHaveNoZero : List (List ℕ × List ℕ) → Type 0
AllHaveNoZero [] = Unit {0}
AllHaveNoZero ((t, rest) ∷ ts) = HasNoZero t × AllHaveNoZero ts

read_text : (t rest buf : List ℕ) → HasNoZero t → c_string (read_into (t ++ 0 ∷ rest) buf) ≡ some t
read_text t rest buf h =
    rw (append_assoc t (0 ∷ rest) (drop (length (t ++ 0 ∷ rest)) buf)) (c_string-framed t _ h)

log_loop-numbered :
    (ts : List (List ℕ × List ℕ)) (buf : List ℕ) (n : ℕ) (log : List Line)
    → AllHaveNoZero ts
    → log_loop (chunks_of ts) buf n log ≡ ok (n + length ts) (log ++ numbered n ts)
unfolding log_loop
log_loop-numbered [] buf n log h = rw (append-nil log) (ap (λ m. ok m log) (omega arith))
log_loop-numbered ((t, rest) ∷ ts) buf n log (h, hs) =
    rw (log_loop, read_text t rest buf h)
      (log_loop-numbered ts (read_into (t ++ 0 ∷ rest) buf) (suc n) (log ++ entry n t ∷ []) hs
        ∙ rw (append_assoc log (entry n t ∷ []) (numbered (suc n) ts))
            (ap (λ m. ok m (log ++ entry n t ∷ numbered (suc n) ts)) (omega arith)))

-- Whatever the buffer held, the log has one line for each read that returns bytes, numbered from 0,
-- with the text in front of the first byte 0 that was read, and a last line that says how the pipe
-- ended: the texts that the same read returned behind that byte are not in the log. The condition is
-- that what is read starts with a whole text.
pub log_process-numbered :
    (ts : List (List ℕ × List ℕ)) (failed : Bool) (buf : List ℕ)
    → AllHaveNoZero ts
    → log_process true (chunks_of ts) failed buf
      ≡ ok tt (
          numbered 0 ts
          ++ (if failed then read_failed (length ts) else terminated (length ts)) ∷ [])
unfolding log_process
log_process-numbered ts failed buf h =
    rw (log_process, log_loop-numbered ts buf 0 [] h)
      (ap (λ m. ok tt (numbered 0 ts ++ (if failed then read_failed m else terminated m) ∷ []))
        (omega arith))
