-- ===== src/Balance.antt =====
-- crates/openqbw/src/quickbooks_balance.rs: the six-byte legacy balance values.
pub mod RoundTrip
pub mod Money
use openqbw.Base.{
  ℕ, ◌+◌, ◌*◌, ◌≡◌, Bool, true, false, not, ◌&&◌, ◌||◌, Outcome, ok, err, ◌>>=◌, ltb, ◌==◌,
  if◌then◌else◌,
}
use openqbw.Base.Int.{ℤ, pos, neg}
use openqbw.Base.Bytes.{u32_from_be, byte0, byte1, byte2, byte3}
use Prim.Native.Nat.{bit_and}

-- `!KNOWN_FLAG_BITS` on a byte, and the single flags.
abbrev pub unknown_flag_bits : ℕ
unknown_flag_bits = 0xe0

abbrev pub kind_quantity : ℕ
kind_quantity = 0x01

abbrev pub negative : ℕ
negative = 0x02

abbrev pub error : ℕ
error = 0x04

abbrev pub percent : ℕ
percent = 0x08

abbrev pub empty : ℕ
empty = 0x10

pub data BalanceKind : Type 0 where
  dollar quantity : BalanceKind

pub record BalanceFlags : Type 0 where
  pub raw : ℕ

pub data BalanceError : Type 0 where
  unknown_bits : ℕ → ℕ → BalanceError
  invalid_dollar_cents : ℕ → BalanceError
  not_monetary : BalanceKind → BalanceFlags → BalanceError

-- `QuickBooksLegacyBalanceFlags::from_raw`
unfoldable pub flags_from_raw : ℕ → Outcome BalanceError BalanceFlags
flags_from_raw raw =
    let bits = bit_and raw unknown_flag_bits in
    if not (bits == 0) then err (unknown_bits raw bits) else ok (record { raw = raw })

unfoldable pub kind : BalanceFlags → BalanceKind
kind f = if bit_and f.raw kind_quantity == 0 then dollar else quantity

unfoldable pub is_negative : BalanceFlags → Bool
is_negative f = not (bit_and f.raw negative == 0)

unfoldable pub is_error : BalanceFlags → Bool
is_error f = not (bit_and f.raw error == 0)

unfoldable pub is_percent : BalanceFlags → Bool
is_percent f = not (bit_and f.raw percent == 0)

unfoldable pub is_empty : BalanceFlags → Bool
is_empty f = not (bit_and f.raw empty == 0)

pub record LegacyBalance : Type 0 where
  pub fraction : ℕ
  pub flags : BalanceFlags
  pub dollars : ℕ

-- A six-byte array.
pub record BalanceBytes : Type 0 where
  pub b0 : ℕ
  pub b1 : ℕ
  pub b2 : ℕ
  pub b3 : ℕ
  pub b4 : ℕ
  pub b5 : ℕ

abbrev pub is_dollar : BalanceKind → Bool
is_dollar dollar = true
is_dollar quantity = false

-- `QuickBooksLegacyBalance::from_disk_bytes`
unfoldable pub balance_from_disk_bytes : BalanceBytes → Outcome BalanceError LegacyBalance
unfolding flags_from_raw kind u32_from_be
balance_from_disk_bytes bytes = do
  flags ← flags_from_raw bytes.b1
  if is_dollar (kind flags) && ltb 99 bytes.b0
      then err (invalid_dollar_cents bytes.b0)
      else ok (record {
        fraction = bytes.b0;
        flags = flags;
        dollars = u32_from_be bytes.b2 bytes.b3 bytes.b4 bytes.b5;
      })

-- `QuickBooksLegacyBalance::to_disk_bytes`
unfoldable pub balance_to_disk_bytes : LegacyBalance → BalanceBytes
balance_to_disk_bytes b = record {
  b0 = b.fraction;
  b1 = b.flags.raw;
  b2 = byte3 b.dollars;
  b3 = byte2 b.dollars;
  b4 = byte1 b.dollars;
  b5 = byte0 b.dollars;
}

-- `QuickBooksLegacyBalance::signed_cents`
unfoldable pub signed_cents : LegacyBalance → Outcome BalanceError ℤ
unfolding kind is_negative is_error is_percent is_empty neg
signed_cents b =
    if not (is_dollar (kind b.flags))
    then err (not_monetary (kind b.flags) b.flags)
    else if is_error b.flags || is_percent b.flags || is_empty b.flags
    then err (not_monetary (kind b.flags) b.flags)
    else let magnitude = pos (b.dollars * 100 + b.fraction) in
      ok (if is_negative b.flags then neg magnitude else magnitude)
