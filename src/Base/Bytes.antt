-- ===== src/Base/Bytes.antt =====
-- Bytes as numbers below 256, and the fixed-width integers of `from_be_bytes`, `from_le_bytes` and
-- their inverses.
use openqbw.Base.{ℕ, ◌+◌, ◌*◌, ◌/◌, ◌%◌, ◌^◌, ◌<◌, ◌≡◌, arith, List, [], ◌∷◌}

abbrev pub IsByte : ℕ → Type 0
IsByte b = b < 256

abbrev pub IsU16 : ℕ → Type 0
IsU16 v = v < 2 ^ 16

abbrev pub IsU32 : ℕ → Type 0
IsU32 v = v < 2 ^ 32

unfoldable pub u16_from_be : ℕ → ℕ → ℕ
u16_from_be a b = a * 256 + b

unfoldable pub u32_from_be : ℕ → ℕ → ℕ → ℕ → ℕ
u32_from_be a b c d = ((a * 256 + b) * 256 + c) * 256 + d

-- The bytes of a word, by their place from the least significant one.
abbrev pub byte0 : ℕ → ℕ
byte0 v = v % 256

abbrev pub byte1 : ℕ → ℕ
byte1 v = v / 256 % 256

abbrev pub byte2 : ℕ → ℕ
byte2 v = v / 65536 % 256

abbrev pub byte3 : ℕ → ℕ
byte3 v = v / 16777216 % 256

unfoldable pub u16_to_be : ℕ → List ℕ
u16_to_be v = byte1 v ∷ byte0 v ∷ []

unfoldable pub u32_to_be : ℕ → List ℕ
u32_to_be v = byte3 v ∷ byte2 v ∷ byte1 v ∷ byte0 v ∷ []

pub u16_from_be_bytes : (v : ℕ) → IsU16 v → u16_from_be (byte1 v) (byte0 v) ≡ v
unfolding u16_from_be
u16_from_be_bytes v h = omega arith

pub u32_from_be_bytes : (v : ℕ) → IsU32 v → u32_from_be (byte3 v) (byte2 v) (byte1 v) (byte0 v) ≡ v
unfolding u32_from_be
u32_from_be_bytes v h = omega arith

pub u16_to_be-from_be : (a b : ℕ) → IsByte a → IsByte b → u16_to_be (u16_from_be a b) ≡ a ∷ b ∷ []
unfolding u16_to_be u16_from_be
u16_to_be-from_be a b ha hb = ground arith

pub u32_to_be-from_be :
    (a b c d : ℕ)
    → IsByte a
    → IsByte b
    → IsByte c
    → IsByte d
    → u32_to_be (u32_from_be a b c d) ≡ a ∷ b ∷ c ∷ d ∷ []
unfolding u32_to_be u32_from_be
u32_to_be-from_be a b c d ha hb hc hd = ground arith
