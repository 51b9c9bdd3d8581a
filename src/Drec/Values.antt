-- ===== src/Drec/Values.antt =====
-- One value, read where it was written, and what the reading of a value shows.
use openqbw.Base.{
  ℕ, zero, suc, ◌+◌, ◌≡◌, ◌≤◌, ◌<◌, ◌^◌, refl, sym, ap, List, [], ◌∷◌, ◌++◌, Option, some, Outcome,
  ok, ◌>>=◌, map_err, arith, All, length, take, drop, take-append, drop-append, length-append,
  length-take, true, ltb, ◌==◌, inl, inr, Bool-cases, Option-cases,
}
use openqbw.Base.Bytes.{IsByte, IsU16, IsU32}
use openqbw.Balance.{LegacyBalance, BalanceError}
use openqbw.Balance.RoundTrip.{IsBalance, balance_from_disk-to_disk}
use openqbw.Drec.{
  DrecByteOrder, DrecClass, DrecValue, DrecDescriptor, has_no_nul, value_matches,
  invalid_legacy_balance,
}
use openqbw.Drec.Parse.{Input, fits_usize, take_slice, split_nul, parse_string, parse_value}
use openqbw.Drec.Encode.{value_encoded_len, value_bytes}
use openqbw.Drec.Words.{input_at, take_2-write_u16, take_4-write_u32}

-- What the types of the source say of a value: its words fit, a balance is a decoded one, and a `Z`
-- value has nine bytes.
abbrev pub IsValue : DrecValue → Type 0
IsValue (DrecValue.string v) = Unit
IsValue (DrecValue.bytes v) = Unit
IsValue (DrecValue.u32 v) = IsU32 v
IsValue (DrecValue.u16 v) = IsU16 v
IsValue (DrecValue.legacy_balance v) = IsBalance v
IsValue (DrecValue.z v) = length v ≡ 9

split_nul-append :
    (bound : ℕ) (v rest : List ℕ)
    → has_no_nul v ≡ true
    → suc (length v) ≤ bound
    → split_nul bound ((v ++ 0 ∷ []) ++ rest) ≡ some (v, rest)
unfolding split_nul has_no_nul
split_nul-append (suc bound) [] rest h fits = refl
split_nul-append (suc bound) (b ∷ v) rest h fits = ground (arith, split_nul-append bound v rest)
split_nul-append zero v rest h fits = absurd (omega arith)

take-drop : (n : ℕ) (bytes : List ℕ) → take n bytes ++ drop n bytes ≡ bytes
take-drop zero bytes = refl
take-drop (suc n) [] = refl
take-drop (suc n) (b ∷ bytes) = rw (take-drop n bytes)

All-drop : (n : ℕ) (bytes : List ℕ) → All IsByte bytes → All IsByte (drop n bytes)
All-drop zero bytes h = h
All-drop (suc n) [] h = tt
All-drop (suc n) (b ∷ bytes) h = All-drop n bytes h.1

take_slice-append :
    (c : ℕ) (v rest : List ℕ)
    → c + length v < 2 ^ 64
    → take_slice (input_at c (v ++ rest)) (length v) ≡ ok (v, input_at (c + length v) rest)
unfolding take_slice
take_slice-append c v rest h =
    rw (take-append v rest, drop-append v rest, length-append v rest) (ground arith)

abbrev pub descriptor : DrecClass → ℕ → Option DrecValue → DrecDescriptor
descriptor kind len default = record { kind = kind; length = len; default = default }

value_written :
    (c : ℕ) (rest : List ℕ) (order : DrecByteOrder) (default : Option DrecValue) (kind : DrecClass)
    (len : ℕ) (v : DrecValue)
    → value_matches kind len v ≡ true
    → IsValue v
    → c + len < 2 ^ 64
    → c + 9 < 2 ^ 64
    → parse_value (input_at c (value_bytes order v ++ rest)) (descriptor kind len default) order
      ≡ ok (v, input_at (c + value_encoded_len v) rest)
unfolding parse_value value_bytes value_encoded_len value_matches parse_string
value_written c rest order default DrecClass.string len (DrecValue.string v) m w fits nine =
    ground (arith, split_nul-append len v rest)
value_written c rest order default DrecClass.bytes len (DrecValue.bytes v) m w fits nine =
    let same : len ≡ length v = ground arith in
    rw same (rw (take_slice-append c v rest (rw same at fits)) refl)
value_written c rest order default DrecClass.f len (DrecValue.u32 v) m w fits nine =
    rw (take_4-write_u32 order v c rest w)
value_written c rest order default DrecClass.i len (DrecValue.u32 v) m w fits nine =
    rw (take_4-write_u32 order v c rest w)
value_written c rest order default DrecClass.l len (DrecValue.u32 v) m w fits nine =
    rw (take_4-write_u32 order v c rest w)
value_written c rest order default DrecClass.h len (DrecValue.u16 v) m w fits nine =
    rw (take_2-write_u16 order v c rest w)
value_written c rest order default DrecClass.u len (DrecValue.u16 v) m w fits nine =
    rw (take_2-write_u16 order v c rest w)
value_written c rest order default DrecClass.legacy_balance len (DrecValue.legacy_balance v) m w
      fits nine =
    ap
      (λ (m : Outcome BalanceError LegacyBalance). map_err invalid_legacy_balance m >>= λ b.
        ok (DrecValue.legacy_balance b, input_at (c + 6) rest))
      (balance_from_disk-to_disk v w)
value_written c rest order default DrecClass.z len (DrecValue.z v) m w fits nine =
    let slice = take_slice-append c v rest (rw w nine) in rw (rw w at slice)
value_written c rest order default kind len v m w fits nine = cc

-- The bytes of a value that matches its descriptor are read back as that value.
pub parse_value-value_bytes :
    (c : ℕ) (rest : List ℕ) (d : DrecDescriptor) (v : DrecValue) (order : DrecByteOrder)
    → value_matches d.kind d.length v ≡ true
    → IsValue v
    → c + d.length < 2 ^ 64
    → c + 9 < 2 ^ 64
    → parse_value (input_at c (value_bytes order v ++ rest)) d order
      ≡ ok (v, input_at (c + value_encoded_len v) rest)
parse_value-value_bytes c rest d v order m w fits nine =
    value_written c rest order d.default d.kind d.length v m w fits nine

pub take_slice_inv :
    (c n : ℕ) (bytes : List ℕ) (r : List ℕ × Input)
    → All IsByte bytes
    → take_slice (input_at c bytes) n ≡ ok r
    → (length r.0 ≡ n) × (bytes ≡ r.0 ++ r.1.rest) × (r.1.cursor ≡ c + n) × All IsByte r.1.rest
unfolding take_slice
take_slice_inv c n bytes r h e = elim (Bool-cases (fits_usize (c + n))) [
  | inr huge ↦ cc (rw huge at e)
  | inl fits ↦ elim (Bool-cases (ltb (length bytes) n)) [
    | inl short ↦ cc (rw short at (rw fits at e))
    | inr enough ↦
        let e1 = rw enough at (rw fits at e) in
        let same : r ≡ (take n bytes, input_at (c + n) (drop n bytes)) = cc e1 in
        rw same
          (length-take n bytes (ground arith), sym (take-drop n bytes), refl, All-drop n bytes h)
  ]
]

pub split_nul_inv :
    (bound : ℕ) (bytes : List ℕ) (r : List ℕ × List ℕ)
    → All IsByte bytes
    → split_nul bound bytes ≡ some r
    → (has_no_nul r.0 ≡ true)
      × (suc (length r.0) ≤ bound)
      × (bytes ≡ (r.0 ++ 0 ∷ []) ++ r.1)
      × All IsByte r.1
unfolding split_nul has_no_nul
split_nul_inv zero bytes r h e = cc
split_nul_inv (suc bound) [] r h e = cc
split_nul_inv (suc bound) (b ∷ bytes) r h e = elim (Bool-cases (b == 0)) [
  | inl nul ↦ ground arith
  | inr other ↦ elim (Option-cases (split_nul bound bytes)) [
    | inl missing ↦ cc (rw missing at (rw other at e))
    | inr (found, split) ↦
        let (clean, short, same, left) = split_nul_inv bound bytes found h.1 split in ground arith
  ]
]
