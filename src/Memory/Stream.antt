-- ===== src/Memory/Stream.antt =====
-- A file as the program reads it: the bytes that are left, and whether its end has been met.
use btvnlinux.Prelude.{
  ℕ, Bool, true, false, Option, none, some, List, [], ltb, if◌then◌else◌, length, take, drop,
}

pub record File : Type 0 where
  pub rest : List ℕ
  pub at_end : Bool

-- A file that has just been opened.
abbrev pub opened : List ℕ → File
opened bs = record { rest = bs; at_end = false }

-- `fread` of one item of `size` bytes: none where it returns 0, having met the end of the file.
unfoldable pub fread : (size : ℕ) → File → Option (List ℕ) × File
fread size f =
    if ltb (length f.rest) size
    then (none, record { rest = []; at_end = true })
    else (some (take size f.rest), record f { rest = drop size f.rest })
