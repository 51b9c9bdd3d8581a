-- ===== src/Statements/NetIncome/Reported.antt =====
-- The last row of Profit & Loss.
use openqbw.Base.{
  ◌≡◌, refl, sym, ap, ◌∙◌, List, [], ◌∷◌, ◌++◌, ok, none, some, ◌>>=◌, >>=-eq-ok, ok_injective,
  if◌then◌else◌, map_err-eq-ok, map_err, arith,
}
use openqbw.Base.Int.{ℤ, pos, neg, ◌+ℤ◌, ◌-ℤ◌, ltb_ℤ}
use openqbw.Base.Text.{codes, text_ord}
use openqbw.Base.Map.{Map, values}
use openqbw.Base.Sum.{sum_of}
use openqbw.Accounting.Types.{AccountId, Account, AccountingDate, Ledger, TrialBalanceOptions}
use openqbw.Accounting.Types.Classification.{is_profit_and_loss}
use openqbw.Accounting.Validity.{IsLedger}
use openqbw.Accounting.GeneralLedger.{sorted_entries, general_ledger-entries}
use openqbw.Accounting.Reports.{general_ledger_as_of}
use openqbw.Rows.{guard-eq-ok}
use openqbw.Statements.Types.{
  income, cost_of_goods_sold, expense, other_income, other_expense, profit, FinancialStatementKind,
  FinancialStatementRow, FinancialStatement, Section, RowKind, subtotal, calculated, Statement,
  accounting,
}
use openqbw.Statements.Sections.{
  validated_list, validated_accounts, section_rows, append_section, append_derived, append_total,
  append_calculated, exact_amount,
}
use openqbw.Statements.ProfitAndLoss.{period_totals, income_sections, profit_and_loss}
use openqbw.Statements.NetIncome.{profit_share, net_income-sections}
use openqbw.Statements.NetIncome.Balances.{period_balance, period_totals-period_balance}
use Prim.Native.String.{String}
use mathlib.Core.Path.{fun_ext, subst}

append_section_inv :
    (report : FinancialStatement) (balances : Map AccountId ℤ) (section : Section)
    (options : TrialBalanceOptions) (r : FinancialStatement × ℤ)
    → append_section report balances section options ≡ ok r
    → (rows : List FinancialStatementRow) × (section_rows balances section options report.accounts
        ≡ ok (rows, r.1))
      × (r.0.accounts ≡ report.accounts)
unfolding append_section
append_section_inv report balances section options r e =
    let (made, listed, e1) =
      >>=-eq-ok (section_rows balances section options report.accounts) _ e in
    let built = ok_injective e1 in
    (
      made.0,
      listed ∙ ap (λ (t : ℤ). ok (made.0, t)) (ap (λ x. x.1) built),
      sym (ap (λ x. x.0.accounts) built),
    )

exact_amount_inv : (z w : ℤ) → exact_amount z ≡ ok w → w ≡ z
unfolding exact_amount
exact_amount_inv z w e = ground arith

append_derived_inv :
    (report : FinancialStatement) (kind : RowKind) (section : Section) (key label : String)
    (amount : ℤ) (r : FinancialStatement)
    → append_derived report kind section key label amount ≡ ok r
    → (r.accounts ≡ report.accounts)
      × ((row : FinancialStatementRow) × (r.rows ≡ report.rows ++ (row ∷ []))
          × (row.key ≡ codes key)
          × (row.amount_minor_units ≡ amount))
unfolding append_derived
append_derived_inv report kind section key label amount r e =
    let (exact, fits, e1) = >>=-eq-ok (exact_amount amount) _ e in
    let built = ok_injective e1 in
    (
      sym (ap (λ x. x.accounts) built),
      (_, sym (ap (λ x. x.rows) built), refl, exact_amount_inv amount exact fits),
    )

-- One step of `income_sections`, and then the rest.
module _ (accounts : List Account) (balances : Map AccountId ℤ) (options : TrialBalanceOptions)
    {statement : FinancialStatement} {Goal : Type 0} where
  section_step :
      (report : FinancialStatement) (section : Section)
      {next : FinancialStatement × ℤ → Statement FinancialStatement}
      → report.accounts ≡ accounts
      → (append_section report balances section options >>= next) ≡ ok statement
      → ((r : FinancialStatement × ℤ) (rows : List FinancialStatementRow)
          → section_rows balances section options accounts ≡ ok (rows, r.1)
          → r.0.accounts ≡ accounts
          → next r ≡ ok statement
          → Goal)
      → Goal
  section_step report section same e rest =
      let (r, made, e1) = >>=-eq-ok (append_section report balances section options) _ e in
      let (rows, listed, kept) = append_section_inv report balances section options r made in
      rest r rows
        (subst
          (λ (charted : List Account).
            section_rows balances section options charted ≡ ok (rows, r.1))
          same listed)
        (kept ∙ same) e1

  total_step :
      (report : FinancialStatement) (section : Section) (key label : String) (amount : ℤ)
      {next : FinancialStatement → Statement FinancialStatement}
      → report.accounts ≡ accounts
      → (append_total report section key label amount >>= next) ≡ ok statement
      → ((r : FinancialStatement) → r.accounts ≡ accounts → next r ≡ ok statement → Goal)
      → Goal
  unfolding append_total
  total_step report section key label amount same e rest =
      let (r, made, e1) = >>=-eq-ok (append_total report section key label amount) _ e in
      rest r ((append_derived_inv report subtotal section key label amount r made).0 ∙ same) e1

  calculated_step :
      (report : FinancialStatement) (section : Section) (key label : String) (amount : ℤ)
      {next : FinancialStatement → Statement FinancialStatement}
      → report.accounts ≡ accounts
      → (append_calculated report section key label amount >>= next) ≡ ok statement
      → ((r : FinancialStatement) → r.accounts ≡ accounts → next r ≡ ok statement → Goal)
      → Goal
  unfolding append_calculated
  calculated_step report section key label amount same e rest =
      let (r, made, e1) = >>=-eq-ok (append_calculated report section key label amount) _ e in
      rest r ((append_derived_inv report calculated section key label amount r made).0 ∙ same) e1

-- The last row of the statement.
abbrev pub EndsWith : FinancialStatement → String → ℤ → Type 0
EndsWith statement key amount =
    (before : List FinancialStatementRow) × (row : FinancialStatementRow) × (statement.rows
      ≡ before ++ (row ∷ []))
    × (row.key ≡ codes key)
    × (row.amount_minor_units ≡ amount)

calculated_last :
    (report statement : FinancialStatement) (section : Section) (key label : String)
    (amount total : ℤ)
    → append_calculated report section key label amount ≡ ok statement
    → amount ≡ total
    → EndsWith statement key total
unfolding append_calculated
calculated_last report statement section key label amount total e same =
    let (_, (row, rows, named, shown)) =
      append_derived_inv report calculated section key label amount statement e in
    (report.rows, row, rows, named, shown ∙ same)

income_sections_inv :
    (report : FinancialStatement) (balances : Map AccountId ℤ) (options : TrialBalanceOptions)
    (chart : List Account) (statement : FinancialStatement)
    → validated_list chart ≡ ok report.accounts
    → income_sections report balances options ≡ ok statement
    → EndsWith statement "net_income" (neg (sum_of (profit_share balances) chart))
unfolding income_sections
income_sections_inv report balances options chart statement valid e =
    let a = report.accounts in
    section_step a balances options report income refl e (λ s1 i h1 k1 e1.
      total_step a balances options s1.0 income "total_income" "Total Income" s1.1 k1 e1
        (λ r2 k2 e2. section_step a balances options r2 cost_of_goods_sold k2 e2 (λ s3 c h3 k3 e3.
          total_step a balances options s3.0 cost_of_goods_sold "total_cost_of_goods_sold"
            "Total Cost of Goods Sold" s3.1 k3 e3
            (λ r4 k4 e4.
              calculated_step a balances options r4 profit "gross_profit" "Gross Profit"
                (s1.1 -ℤ s3.1) k4 e4
                (λ r5 k5 e5. section_step a balances options r5 expense k5 e5 (λ s6 x h6 k6 e6.
                  total_step a balances options s6.0 expense "total_expense" "Total Expense" s6.1 k6
                    e6
                    (λ r7 k7 e7.
                      calculated_step a balances options r7 profit "net_operating_income"
                        "Net Operating Income" (s1.1 -ℤ s3.1 -ℤ s6.1) k7 e7
                        (λ r8 k8 e8.
                          section_step a balances options r8 other_income k8 e8 (λ s9 j h9 k9 e9.
                            total_step a balances options s9.0 other_income "total_other_income"
                              "Total Other Income" s9.1 k9 e9
                              (λ r10 k10 e10.
                                section_step a balances options r10 other_expense k10 e10
                                  (λ s11 o h11 k11 e11.
                                    total_step a balances options s11.0 other_expense
                                      "total_other_expense" "Total Other Expense" s11.1 k11 e11
                                      (λ r12 k12 e12.
                                        calculated_step a balances options r12 profit
                                          "net_other_income" "Net Other Income" (s9.1 -ℤ s11.1) k12
                                          e12
                                          (λ r13 k13 e13.
                                            calculated_last r13 statement profit "net_income"
                                              "Net Income" (s1.1 -ℤ s3.1 -ℤ s6.1 +ℤ s9.1 -ℤ s11.1)
                                              (neg (sum_of (profit_share balances) chart)) e13
                                              (net_income-sections balances options chart
                                                report.accounts (i, s1.1) (c, s3.1) (x, s6.1)
                                                (j, s9.1) (o, s11.1) valid h1 h3 h6 h9
                                                h11))))))))))))))

-- The chart's profit and loss of a period: what its income, expense and cost-of-goods-sold accounts
-- hold in the period.
abbrev pub period_profit : Ledger → AccountingDate → AccountingDate → Account → ℤ
period_profit l from through a =
    if is_profit_and_loss a.account_type then period_balance l from through a else pos 0

profit_share-period :
    (l : Ledger) (from through : AccountingDate)
    → IsLedger l
    → (chart : List Account)
    → sum_of (profit_share (period_totals from [] (sorted_entries l through))) chart
      ≡ sum_of (period_profit l from through) chart
profit_share-period l from through v chart =
    ap
      (λ (balance : Account → ℤ).
        sum_of (λ a. if is_profit_and_loss a.account_type then balance a else pos 0) chart)
      (fun_ext (period_totals-period_balance l from through v))

-- A Profit & Loss statement of a valid ledger ends with the net income: the negated sum, over the
-- income, expense and cost-of-goods-sold accounts of the chart, of their current postings from the
-- first day of the period through the last.
pub profit_and_loss-net_income :
    (l : Ledger) (from through : AccountingDate) (options : TrialBalanceOptions)
    (statement : FinancialStatement)
    → IsLedger l
    → profit_and_loss l from through options ≡ ok statement
    → EndsWith statement "net_income"
        (neg (sum_of (period_profit l from through) (values l.accounts)))
unfolding profit_and_loss validated_accounts
profit_and_loss-net_income l from through options statement v e =
    let (_, e1) = guard-eq-ok (ltb_ℤ through from) _ _ e in
    let (accts, valid, e2) = >>=-eq-ok (validated_list (values l.accounts)) _ e1 in
    let (gl, mapped, e3) = >>=-eq-ok (map_err accounting (general_ledger_as_of l through)) _ e2 in
    let made = map_err-eq-ok accounting (general_ledger_as_of l through) mapped in
    let (built, _) = general_ledger-entries l through gl v.postings_known made in
    let opened : FinancialStatement = record {
      kind = FinancialStatementKind.profit_and_loss;
      from = some from;
      as_of = through;
      policy = none;
      accounts = accts;
      rows = [];
    } in
    let sums : sum_of (profit_share (period_totals from [] gl.entries)) (values l.accounts)
        ≡ sum_of (period_profit l from through) (values l.accounts) =
      rw built (profit_share-period l from through v (values l.accounts)) in
    subst (λ (z : ℤ). EndsWith statement "net_income" (neg z)) sums
      (income_sections_inv opened (period_totals from [] gl.entries) options (values l.accounts)
        statement valid e3)
