-- ===== src/Memory/Binary.antt =====
-- How a value of a C type is laid out in memory.
use btvnlinux.Prelude.{ℕ, ◌+◌, ◌*◌, ◌/◌, ◌%◌, ◌<◌, ◌≡◌, refl, List, [], ◌∷◌, arith, length}

pub record Binary (A : Type 0) : Type 0 where
  pub size : ℕ
  pub encode : A → List ℕ
  pub decode : List ℕ → A

-- The bytes of the values that `P` holds of are as many as `size` says, and give the value back.
pub record IsBinary {A : Type 0} (b : Binary A) (P : A → Type 0) : Type 0 where
  pub sized : (a : A) → length (b.encode a) ≡ b.size
  pub decoded : (a : A) → P a → b.decode (b.encode a) ≡ a

-- `uint16_t`, the low byte first.
abbrev decode_u16 : List ℕ → ℕ
decode_u16 (lo ∷ hi ∷ bs) = lo + 256 * hi
decode_u16 (lo ∷ []) = 0
decode_u16 [] = 0

abbrev pub u16_binary : Binary ℕ
u16_binary = record { size = 2; encode = λ n. n % 256 ∷ n / 256 % 256 ∷ []; decode = decode_u16 }

u16_decoded : (n : ℕ) → n < 65536 → n % 256 + 256 * (n / 256 % 256) ≡ n
u16_decoded n small = omega arith

pub u16-IsBinary : IsBinary u16_binary (λ n. n < 65536)
u16-IsBinary = record { sized = λ n. refl; decoded = u16_decoded }
