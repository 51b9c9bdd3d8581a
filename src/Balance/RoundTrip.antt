-- ===== src/Balance/RoundTrip.antt =====
-- The six-byte balance: the decoder and the encoder are inverse.
use openqbw.Base.{◌≡◌, ◌≤◌, ok, arith}
use openqbw.Base.Bytes.{IsByte, IsU32}
use openqbw.Balance.{
  dollar, LegacyBalance, BalanceBytes, unknown_flag_bits, kind, balance_from_disk_bytes,
  balance_to_disk_bytes,
}
use Prim.Native.Nat.{bit_and}

-- What the decoder promises of a balance: known flags, a 32-bit dollar part, and cents below 100
-- where the value is money.
pub record IsBalance (b : LegacyBalance) : Type 0 where
  pub known : bit_and b.flags.raw unknown_flag_bits ≡ 0
  pub cents : kind b.flags ≡ dollar → b.fraction ≤ 99
  pub width : IsU32 b.dollars

-- Decoding the encoding of a well-formed balance gives that balance.
pub balance_from_disk-to_disk :
    (b : LegacyBalance) → IsBalance b → balance_from_disk_bytes (balance_to_disk_bytes b) ≡ ok b
unfolding balance_from_disk_bytes balance_to_disk_bytes
balance_from_disk-to_disk b v = ground (arith, v.cents)

-- What the decoder accepts is well formed, and encodes to the bytes it came from.
pub IsBalance-to_disk-from_disk :
    (bytes : BalanceBytes) (b : LegacyBalance)
    → IsByte bytes.b2
    → IsByte bytes.b3
    → IsByte bytes.b4
    → IsByte bytes.b5
    → balance_from_disk_bytes bytes ≡ ok b
    → IsBalance b × (balance_to_disk_bytes b ≡ bytes)
unfolding balance_from_disk_bytes balance_to_disk_bytes
IsBalance-to_disk-from_disk bytes b h2 h3 h4 h5 e = ground arith
