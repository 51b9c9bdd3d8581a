-- ===== src/Rows.antt =====
-- The rows of the materialized tables: reads at fixed offsets, and the parsers of single rows.
pub mod LongValue
pub mod BillHeader
pub mod BillLine
pub mod VoidCompanion
pub mod Deposit
pub mod MasterRow
pub mod NoPanic
pub mod Tables
use openqbw.Base.{
  ℕ, zero, suc, ◌+◌, ◌≡◌, ◌≤◌, ◌<◌, refl, Bool, true, false, not, ◌&&◌, List, [], ◌∷◌, Option, none,
  some, Outcome, ok, err, panic, ◌>>=◌, is_settled, is_settled->>=, length, take, drop, get_elem?,
  leb, ltb, ◌==◌, if◌then◌else◌, arith, inl, inr, Option-cases, Bool-cases,
}
use openqbw.Base.Bytes.{u16_from_be, u32_from_be, byte0, byte1, byte2, byte3}

-- `input[offset]`, which panics behind the end.
unfoldable pub byte_at {κ} : {E : Type κ} → List ℕ → ℕ → Outcome E ℕ
byte_at [] offset = panic
byte_at (b ∷ bytes) zero = ok b
byte_at (b ∷ bytes) (suc offset) = byte_at bytes offset

-- `u16::from_le_bytes` and `u32::from_le_bytes` of the bytes from `offset` on.
unfoldable pub u16_at {κ} : {E : Type κ} → List ℕ → ℕ → Outcome E ℕ
unfolding byte_at u16_from_be
u16_at bytes offset = do
  a ← byte_at bytes offset
  b ← byte_at bytes (offset + 1)
  ok (u16_from_be b a)

unfoldable pub u32_at {κ} : {E : Type κ} → List ℕ → ℕ → Outcome E ℕ
unfolding byte_at u32_from_be
u32_at bytes offset = do
  a ← byte_at bytes offset
  b ← byte_at bytes (offset + 1)
  c ← byte_at bytes (offset + 2)
  d ← byte_at bytes (offset + 3)
  ok (u32_from_be d c b a)

-- A word with its least significant byte first.
abbrev pub le16 : ℕ → List ℕ
le16 v = byte0 v ∷ byte1 v ∷ []

abbrev pub le32 : ℕ → List ℕ
le32 v = byte0 v ∷ byte1 v ∷ byte2 v ∷ byte3 v ∷ []

-- `input.get(start..start + count)`
unfoldable pub slice : List ℕ → ℕ → ℕ → Option (List ℕ)
slice bytes start count =
    if leb (start + count) (length bytes) then some (take count (drop start bytes)) else none

-- `==` of byte slices
unfoldable pub eq_bytes : List ℕ → List ℕ → Bool
eq_bytes [] [] = true
eq_bytes (a ∷ xs) (b ∷ ys) = (a == b) && eq_bytes xs ys
eq_bytes _ _ = false

module _ {κ} (E : Type κ) where
  pub byte_at-is_settled :
      (bytes : List ℕ) (offset : ℕ)
      → offset < length bytes
      → is_settled (byte_at {E = E} bytes offset) ≡ true
  unfolding byte_at
  byte_at-is_settled [] offset h = absurd (omega arith)
  byte_at-is_settled (b ∷ bytes) zero h = refl
  byte_at-is_settled (b ∷ bytes) (suc offset) h = byte_at-is_settled bytes offset (omega arith)

  pub u16_at-is_settled :
      (bytes : List ℕ) (offset : ℕ)
      → offset + 2 ≤ length bytes
      → is_settled (u16_at {E = E} bytes offset) ≡ true
  unfolding u16_at
  u16_at-is_settled bytes offset h =
      is_settled->>= (byte_at bytes offset) _ (byte_at-is_settled bytes offset (omega arith))
        (λ a e.
          is_settled->>= (byte_at bytes (offset + 1)) _
            (byte_at-is_settled bytes (offset + 1) (omega arith)) (λ b e'. refl))

  pub u32_at-is_settled :
      (bytes : List ℕ) (offset : ℕ)
      → offset + 4 ≤ length bytes
      → is_settled (u32_at {E = E} bytes offset) ≡ true
  unfolding u32_at
  u32_at-is_settled bytes offset h =
      is_settled->>= (byte_at bytes offset) _ (byte_at-is_settled bytes offset (omega arith))
        (λ a e.
          is_settled->>= (byte_at bytes (offset + 1)) _
            (byte_at-is_settled bytes (offset + 1) (omega arith))
            (λ b e.
              is_settled->>= (byte_at bytes (offset + 2)) _
                (byte_at-is_settled bytes (offset + 2) (omega arith))
                (λ c e.
                  is_settled->>= (byte_at bytes (offset + 3)) _
                    (byte_at-is_settled bytes (offset + 3) (omega arith)) (λ d e'. refl))))

module _ {κ} {E : Type κ} where
  pub is_settled-guard {ℓ} :
      {A : Type ℓ} (b : Bool) (error : E) (m : Outcome E A)
      → (b ≡ false → is_settled m ≡ true)
      → is_settled (if b then err error else m) ≡ true
  is_settled-guard true error m h = refl
  is_settled-guard false error m h = h refl

  -- A guard that was passed.
  pub guard-eq-ok {ℓ} :
      {A : Type ℓ} (b : Bool) (error : E) (m : Outcome E A) {a : A}
      → (if b then err error else m) ≡ ok a
      → (b ≡ false) × (m ≡ ok a)
  guard-eq-ok true error m e = cc
  guard-eq-ok false error m e = (refl, e)

pub eq_of_guard : (a b : ℕ) → not (a == b) ≡ false → a ≡ b
eq_of_guard a b h = ground arith
