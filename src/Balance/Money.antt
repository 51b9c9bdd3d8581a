-- ===== src/Balance/Money.antt =====
-- Which balances are money, and how many cents they are.
use openqbw.Base.{
  ℕ, zero, suc, ◌+◌, ◌*◌, ◌/◌, ◌%◌, ◌≡◌, ◌<◌, refl, ◌↔◌, ◌⊎◌, Bool, true, false, ◌&&◌, ◌||◌, ok,
  arith, ◌==◌,
}
use openqbw.Base.Int.{ℤ, pos, neg}
use openqbw.Base.Bytes.{IsByte}
use openqbw.Balance.{
  LegacyBalance, BalanceBytes, unknown_flag_bits, balance_from_disk_bytes, signed_cents,
}
use Prim.Native.Nat.{bit_and}

-- A test that passes on every number below a bound.
passes : (ℕ → Bool) → ℕ → Bool
passes test zero = true
passes test (suc bound) = passes test bound && test bound

passes-below :
    (test : ℕ → Bool) (bound : ℕ) {n : ℕ} → passes test bound ≡ true → n < bound → test n ≡ true
unfolding passes
passes-below test zero h below = absurd (omega arith)
passes-below test (suc bound) {n} h below = ground (arith, passes-below test bound {n = n})

-- Whether the flags make a balance money, by the tests of `signed_cents`.
monetary : ℕ → Bool
monetary raw =
    bit_and raw unknown_flag_bits == 0
    && bit_and raw 0x01 == 0
    && bit_and raw 0x04 == 0
    && bit_and raw 0x08 == 0
    && bit_and raw 0x10 == 0

same : Bool → Bool → Bool
same true b = b
same false true = false
same false false = true

-- Every flag byte that passes the tests is 0 or 2, and the negative flag tells the two apart.
flag_table :
    passes
      (λ raw.
        same (monetary raw) (raw == 0 || raw == 2)
        && same (bit_and raw 0x02 == 0) (raw / 2 % 2 == 0))
      256
    ≡ true
unfolding passes monetary same
flag_table = refl

flag_facts :
    (raw : ℕ)
    → raw < 256
    → same (monetary raw) (raw == 0 || raw == 2) && same (bit_and raw 0x02 == 0) (raw / 2 % 2 == 0)
      ≡ true
flag_facts raw h = passes-below _ 256 flag_table h

-- A balance read from six bytes is money exactly when its flag byte is 0 or 2; it is then worth
-- dollars * 100 + cents, counted negative for flag 2.
pub signed_cents_of_disk :
    (bytes : BalanceBytes) (b : LegacyBalance) (c : ℤ)
    → IsByte bytes.b1
    → balance_from_disk_bytes bytes ≡ ok b
    → (signed_cents b ≡ ok c) ↔ (
        ((bytes.b1 ≡ 0) × (c ≡ pos (b.dollars * 100 + bytes.b0)))
        ⊎ ((bytes.b1 ≡ 2) × (c ≡ neg (pos (b.dollars * 100 + bytes.b0)))))
unfolding balance_from_disk_bytes signed_cents monetary same
signed_cents_of_disk bytes b c h e =
    (λ k. ground (arith, flag_facts bytes.b1 h), λ k. ground (arith, flag_facts bytes.b1 h))
