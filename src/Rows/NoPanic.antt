-- ===== src/Rows/NoPanic.antt =====
-- No parser of a row panics.
use openqbw.Base.{
  ℕ, ◌≡◌, refl, Bool, true, not, List, ◌||◌, is_settled, is_settled->>=, length, leb, ◌==◌, arith,
}
use openqbw.Cents.{parse_cents}
use openqbw.Cents.Total.{parse_cents-is_settled}
use openqbw.Rows.{
  u16_at, u32_at, u16_at-is_settled, u32_at-is_settled, is_settled-guard, eq_of_guard,
}
use openqbw.Rows.LongValue.{parse_long_value_ref, long_value_ref_len, long_value_ref_marker}
use openqbw.Rows.BillHeader.{parse_bill_header, parse_bill_header-is_settled}
use openqbw.Rows.BillLine.{parse_bill_line}
use openqbw.Rows.BillLine.Parsed.{parse_bill_line-is_settled}
use openqbw.Rows.Deposit.{parse_deposit, parse_counterpart}
use openqbw.Rows.Deposit.Settled.{parse_deposit-is_settled, parse_counterpart-is_settled}
use openqbw.Rows.VoidCompanion.{parse_companion, parse_companion-is_settled}
use openqbw.Rows.MasterRow.{parse_master_row}
use openqbw.Rows.MasterRow.Framed.{parse_master_row-is_settled}

long_value-is_settled :
    (input : List ℕ) (page_count : ℕ) → is_settled (parse_long_value_ref input page_count) ≡ true
unfolding parse_long_value_ref
long_value-is_settled input page_count =
    is_settled-guard (not (length input == long_value_ref_len)) _ _ (λ exact.
      let enough = eq_of_guard (length input) 14 exact in
      is_settled->>= (u16_at input 0) _ (u16_at-is_settled _ input 0 (omega (arith, enough)))
        (λ marker _. is_settled-guard (not (marker == long_value_ref_marker)) _ _ (λ _.
          is_settled->>= (u32_at input 2) _ (u32_at-is_settled _ input 2 (omega (arith, enough)))
            (λ payload _. is_settled-guard (payload == 0) _ _ (λ _.
              is_settled->>= (u32_at input 6) _
                (u32_at-is_settled _ input 6 (omega (arith, enough)))
                (λ page _. is_settled-guard ((page == 0) || leb page_count page) _ _ (λ _.
                  is_settled->>= (u16_at input 10) _
                    (u16_at-is_settled _ input 10 (omega (arith, enough)))
                    (λ reserved _.
                      is_settled->>= (u16_at input 12) _
                        (u16_at-is_settled _ input 12 (omega (arith, enough)))
                        (λ selector _. refl)))))))))

-- Whatever bytes they are given, the parsers of Bill headers, Bill lines, Deposit rows, Deposit
-- counterparts, void companions, transaction masters (for any test of UTF-8), long-value locators and
-- cents tokens return a row or an error: no
-- read of theirs is out of bounds.
pub row_parsers-is_settled :
    (is_utf8 : List ℕ → Bool) (page_count : ℕ) (input : List ℕ)
    → (is_settled (parse_bill_header input) ≡ true)
      × (is_settled (parse_bill_line input) ≡ true)
      × (is_settled (parse_deposit input) ≡ true)
      × (is_settled (parse_counterpart input) ≡ true)
      × (is_settled (parse_companion input) ≡ true)
      × (is_settled (parse_master_row is_utf8 input) ≡ true)
      × (is_settled (parse_long_value_ref input page_count) ≡ true)
      × (is_settled (parse_cents input) ≡ true)
row_parsers-is_settled is_utf8 page_count input = (
  parse_bill_header-is_settled input,
  parse_bill_line-is_settled input,
  parse_deposit-is_settled input,
  parse_counterpart-is_settled input,
  parse_companion-is_settled input,
  parse_master_row-is_settled is_utf8 input,
  long_value-is_settled input page_count,
  parse_cents-is_settled input,
)
