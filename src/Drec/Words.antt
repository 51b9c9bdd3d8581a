-- ===== src/Drec/Words.antt =====
-- The 16- and 32-bit words and the six bytes of a balance, read where they were written.
use openqbw.Base.{ℕ, ◌+◌, ◌≡◌, refl, List, [], ◌∷◌, ◌++◌, ok, arith, All}
use openqbw.Base.Bytes.{IsByte, IsU16, IsU32}
use openqbw.Balance.{BalanceBytes}
use openqbw.Drec.{DrecByteOrder, little, big, read_u16, read_u32, write_u16, write_u32}
use openqbw.Drec.Parse.{Input, take_2, take_4, take_6}
use openqbw.Drec.Encode.{balance_list}

abbrev pub input_at : ℕ → List ℕ → Input
input_at cursor rest = record { cursor = cursor; rest = rest }

pub take_2-write_u16 :
    (order : DrecByteOrder) (v c : ℕ) (rest : List ℕ)
    → IsU16 v
    → take_2 (read_u16 order) (input_at c (write_u16 order v ++ rest))
      ≡ ok (v, input_at (c + 2) rest)
unfolding take_2 read_u16 write_u16
take_2-write_u16 little v c rest h = ground arith
take_2-write_u16 big v c rest h = ground arith

pub take_4-write_u32 :
    (order : DrecByteOrder) (v c : ℕ) (rest : List ℕ)
    → IsU32 v
    → take_4 (read_u32 order) (input_at c (write_u32 order v ++ rest))
      ≡ ok (v, input_at (c + 4) rest)
unfolding take_4 read_u32 write_u32
take_4-write_u32 little v c rest h = ground arith
take_4-write_u32 big v c rest h = ground arith

pub take_6-balance_list :
    (six : BalanceBytes) (c : ℕ) (rest : List ℕ)
    → take_6 (input_at c (balance_list six ++ rest)) ≡ ok (six, input_at (c + 6) rest)
unfolding take_6
take_6-balance_list six c rest = refl

-- What is read is what the bytes at the cursor write out, and the cursor stands behind them.
pub take_2_inv :
    (order : DrecByteOrder) (c : ℕ) (bytes : List ℕ) (r : ℕ × Input)
    → All IsByte bytes
    → take_2 (read_u16 order) (input_at c bytes) ≡ ok r
    → IsU16 r.0
      × (bytes ≡ write_u16 order r.0 ++ r.1.rest)
      × (r.1.cursor ≡ c + 2)
      × All IsByte r.1.rest
unfolding take_2 read_u16 write_u16
take_2_inv little c (a ∷ b ∷ rest) r h e = ground arith
take_2_inv big c (a ∷ b ∷ rest) r h e = ground arith
take_2_inv order c (a ∷ []) r h e = cc
take_2_inv order c [] r h e = cc

pub take_4_inv :
    (order : DrecByteOrder) (c : ℕ) (bytes : List ℕ) (r : ℕ × Input)
    → All IsByte bytes
    → take_4 (read_u32 order) (input_at c bytes) ≡ ok r
    → IsU32 r.0
      × (bytes ≡ write_u32 order r.0 ++ r.1.rest)
      × (r.1.cursor ≡ c + 4)
      × All IsByte r.1.rest
unfolding take_4 read_u32 write_u32
take_4_inv little c (a ∷ b ∷ x ∷ y ∷ rest) r h e = ground arith
take_4_inv big c (a ∷ b ∷ x ∷ y ∷ rest) r h e = ground arith
take_4_inv order c (a ∷ b ∷ x ∷ []) r h e = cc
take_4_inv order c (a ∷ b ∷ []) r h e = cc
take_4_inv order c (a ∷ []) r h e = cc
take_4_inv order c [] r h e = cc

pub record IsSix (six : BalanceBytes) : Type 0 where
  pub b2 : IsByte six.b2
  pub b3 : IsByte six.b3
  pub b4 : IsByte six.b4
  pub b5 : IsByte six.b5

pub take_6_inv :
    (c : ℕ) (bytes : List ℕ) (r : BalanceBytes × Input)
    → All IsByte bytes
    → take_6 (input_at c bytes) ≡ ok r
    → IsSix r.0
      × (bytes ≡ balance_list r.0 ++ r.1.rest)
      × (r.1.cursor ≡ c + 6)
      × All IsByte r.1.rest
unfolding take_6
take_6_inv c (x0 ∷ x1 ∷ x2 ∷ x3 ∷ x4 ∷ x5 ∷ rest) r h e = ground arith
take_6_inv c (x0 ∷ x1 ∷ x2 ∷ x3 ∷ x4 ∷ []) r h e = cc
take_6_inv c (x0 ∷ x1 ∷ x2 ∷ x3 ∷ []) r h e = cc
take_6_inv c (x0 ∷ x1 ∷ x2 ∷ []) r h e = cc
take_6_inv c (x0 ∷ x1 ∷ []) r h e = cc
take_6_inv c (x0 ∷ []) r h e = cc
take_6_inv c [] r h e = cc
