-- ===== src/ReportOutput/TrialBalance/Rows.antt =====
-- A written row of the Trial Balance is read back.
use openqbw.Base.{
  suc, ◌≡◌, refl, ◌∙◌, sym, Bool, true, false, ◌&&◌, List, [], ◌∷◌, map, Option, none, some, ok,
  >>=-eq-ok, All, arith, ok_injective,
}
use openqbw.Base.Int.{ℤ, pos, negsuc, neg, IsI64, ltb_ℤ, ◌-ℤ◌, eq_ℤ_iff}
use openqbw.Base.Map.{Map, get}
use openqbw.Base.Text.{Text, codes, text_ord, is_whitespace}
use openqbw.Base.Text.Decimal.{i64_to_string, nat_to_string}
use openqbw.Base.Text.Decimal.RoundTrip.{
  IsDigit, nat_to_string-IsDigit, nat_to_string_cons, parse_i64-i64_to_string,
}
use openqbw.Base.Text.Strings.{trim, list_is_empty, unwrap_or}
use openqbw.Base.Text.Strings.Trimmed.{trim-solid}
use openqbw.Accounting.Types.{AccountId, Account, TrialBalanceRow}
use openqbw.Reconcile.Columns.{cell, canonical_native_account_full_name}
use openqbw.Reconcile.Compare.{in_i64}
use openqbw.Reconcile.Normalized.{
  NormalizedHeader, parse_normalized_cents, normalized_row, normalized_balances,
}
use openqbw.ReportOutput.Csv.RoundTrip.{csv_rows, read_back}
use openqbw.ReportOutput.Names.{lookup_name}
use openqbw.ReportOutput.Checks.{ReportMetadata, display_matches_signed}
use openqbw.ReportOutput.TrialBalance.{
  option_map, row_fields, csv_body, trial_balance_account_display_name,
}

solid_digits : (s : Text) → All IsDigit s → All (λ c. is_whitespace c ≡ false) s
unfolding is_whitespace
solid_digits [] h = tt
solid_digits (c ∷ s) h = (ground arith, solid_digits s h.1)

i64_to_string-solid : (a : ℤ) → All (λ c. is_whitespace c ≡ false) (i64_to_string a)
unfolding i64_to_string
i64_to_string-solid (pos n) = solid_digits (nat_to_string n) (nat_to_string-IsDigit n)
i64_to_string-solid (negsuc n) = (
  unfold is_whitespace in refl,
  solid_digits (nat_to_string (suc n)) (nat_to_string-IsDigit (suc n)),
)

list_is_empty-i64_to_string : (a : ℤ) → list_is_empty (i64_to_string a) ≡ false
unfolding i64_to_string
list_is_empty-i64_to_string (pos n) = let (c, s, e, _) = nat_to_string_cons n in rw e
list_is_empty-i64_to_string (negsuc n) = refl

-- A written amount is read back.
parse_normalized_cents-i64_to_string :
    (a : ℤ) (column : Text) (nonnegative : Bool)
    → IsI64 a
    → (nonnegative && ltb_ℤ a (pos 0)) ≡ false
    → parse_normalized_cents (i64_to_string a) column nonnegative ≡ ok (some a)
unfolding parse_normalized_cents
parse_normalized_cents-i64_to_string a column nonnegative h k =
    rw (trim-solid (i64_to_string a) (i64_to_string-solid a))
      (rw (list_is_empty-i64_to_string a) (rw (parse_i64-i64_to_string a h) (rw k)))

-- What `from_i64` does on a sum that is an i64.
in_i64-IsI64 : (a : ℤ) → IsI64 a → in_i64 a ≡ ok a
in_i64-IsI64 a h = ground arith

lookup_name-eq-ok :
    (names : Map AccountId Text) (id : AccountId) {name : Text}
    → lookup_name names id ≡ ok name
    → unwrap_or [] (get id names) ≡ name
unfolding lookup_name
lookup_name-eq-ok names id e = ground arith

-- The values that the fields of an i64 hold.
abbrev pub OptionI64 : Option ℤ → Type 0
OptionI64 none = Unit
OptionI64 (some a) = IsI64 a

abbrev pub IsMachineRow : TrialBalanceRow → Type 0
IsMachineRow row =
    IsI64 row.signed_minor_units
    × OptionI64 row.debit_minor_units
    × OptionI64 row.credit_minor_units

abbrev IsNonnegative : Option ℤ → Type 0
IsNonnegative none = Unit
IsNonnegative (some a) = ltb_ℤ a (pos 0) ≡ false

-- A checked row shows its amount in one of two columns, without its sign.
columns_of_match :
    (row : TrialBalanceRow)
    → display_matches_signed row ≡ true
    → IsNonnegative row.debit_minor_units
      × IsNonnegative row.credit_minor_units
      × (unwrap_or (pos 0) row.debit_minor_units -ℤ unwrap_or (pos 0) row.credit_minor_units
          ≡ row.signed_minor_units)
unfolding display_matches_signed neg ◌-ℤ◌
columns_of_match row h = ground arith

read_amount :
    (o : Option ℤ) (column : Text)
    → OptionI64 o
    → IsNonnegative o
    → parse_normalized_cents (read_back (option_map i64_to_string o)) column true ≡ ok o
read_amount none column h k = unfold parse_normalized_cents trim in refl
read_amount (some a) column h k = parse_normalized_cents-i64_to_string a column true h k

abbrev pub columns_header : NormalizedHeader
columns_header = record {
  account_label = 6;
  debit_cents = 12;
  credit_cents = 14;
  net_cents = 16;
  data_start = 1;
}

module _ (m : ReportMetadata) (display_names : Map AccountId Text) where
  -- The label that the row of an account shows.
  abbrev pub shown_label : Account → Text
  shown_label account =
      trial_balance_account_display_name (unwrap_or [] (get account.id display_names)) m account

  -- What is read of a row.
  abbrev pub shown_balance : TrialBalanceRow → Text × ℤ
  shown_balance row =
      (canonical_native_account_full_name (trim (shown_label row.account)), row.signed_minor_units)

  -- What is asked of a row: it is one that the checks pass, its amounts are i64 values, and its label
  -- is not blank.
  abbrev pub IsReadable : TrialBalanceRow → Type 0
  IsReadable row =
      (display_matches_signed row ≡ true)
      × IsMachineRow row
      × (list_is_empty (trim (shown_label row.account)) ≡ false)

module _ (m : ReportMetadata) (full_names display_names : Map AccountId Text) where
  abbrev pub written : Text → TrialBalanceRow → List (Option Text)
  written as_of_day row =
      row_fields m as_of_day row (unwrap_or [] (get row.account.id full_names))
        (shown_label m display_names row.account)

  pub csv_body-written :
      (as_of_day : Text) (rows : List TrialBalanceRow) {body : Text}
      → csv_body m as_of_day full_names display_names rows ≡ ok body
      → body ≡ csv_rows (map (written as_of_day) rows)
  unfolding csv_body csv_rows
  csv_body-written as_of_day [] e = sym (ok_injective e)
  csv_body-written as_of_day (row ∷ rows) e =
      let (decoded, e1, f1) = >>=-eq-ok (lookup_name display_names row.account.id) _ e in
      let (full_name, e2, f2) = >>=-eq-ok (lookup_name full_names row.account.id) _ f1 in
      let (rest, e3, f3) = >>=-eq-ok (csv_body m as_of_day full_names display_names rows) _ f2 in
      sym (ok_injective f3)
      ∙ rw (
        csv_body-written as_of_day rows e3,
        lookup_name-eq-ok display_names row.account.id e1,
        lookup_name-eq-ok full_names row.account.id e2,
      )

  -- A written row is read back.
  normalized_row-written :
      (as_of_day : Text) (row : TrialBalanceRow)
      → display_matches_signed row ≡ true
      → IsMachineRow row
      → list_is_empty (trim (shown_label m display_names row.account)) ≡ false
      → normalized_row columns_header (map read_back (written as_of_day row))
        ≡ ok (some (shown_balance m display_names row))
  unfolding normalized_row row_fields cell
  normalized_row-written as_of_day row shown machine named =
      let (d, c, net) = columns_of_match row shown in
      rw (
        named,
        read_amount row.debit_minor_units (codes "debit_cents") machine.1 d,
        read_amount row.credit_minor_units (codes "credit_cents") machine.2 c,
        parse_normalized_cents-i64_to_string row.signed_minor_units (codes "net_cents") false
            machine.0 refl,
        net,
        in_i64-IsI64 row.signed_minor_units machine.0,
        (eq_ℤ_iff row.signed_minor_units row.signed_minor_units).1 refl,
      )

  pub normalized_balances-written :
      (as_of_day : Text) (rows : List TrialBalanceRow)
      → All (IsReadable m display_names) rows
      → normalized_balances columns_header (map (map read_back) (map (written as_of_day) rows))
        ≡ ok (map (shown_balance m display_names) rows)
  unfolding normalized_balances
  normalized_balances-written as_of_day [] h = refl
  normalized_balances-written as_of_day (row ∷ rows) h = rw (
    normalized_row-written as_of_day row h.0.0 h.0.1 h.0.2,
    normalized_balances-written as_of_day rows h.1,
  )
