-- ===== src/Statements/NetIncome.antt =====
-- The sections of Profit & Loss taken together: what the net income counts.
pub mod Balances
pub mod Reported
use openqbw.Base.{◌≡◌, refl, List, [], ◌∷◌, ok, All, if◌then◌else◌}
use openqbw.Base.Int.{ℤ, pos, neg, ◌+ℤ◌, ◌-ℤ◌, int_laws}
use openqbw.Base.Text.{text_ord}
use openqbw.Base.Map.{Map, get_or_zero}
use openqbw.Base.Sum.{sum_of}
use openqbw.Accounting.Types.{AccountId, Account, TrialBalanceOptions}
use openqbw.Accounting.Types.Classification.{
  AccountType, QuickBooksAccountClassification, bank, accounts_receivable, other_current_asset,
  fixed_asset, other_asset, accounts_payable, credit_card, other_current_liability,
  long_term_liability, trial_balance_type, is_profit_and_loss,
}
use openqbw.Statements.Types.{
  income, cost_of_goods_sold, expense, other_income, other_expense, FinancialStatementRow,
}
use openqbw.Statements.Sections.{
  validated_list, section_rows, section_for, presented_amount, is_credit_presented,
}
use openqbw.Statements.Totals.{validated_list_inv, IsClassified, in_section, section_rows-total}

-- The five totals of the statement, as they are combined to the net income.
abbrev combined : Map AccountId ℤ → List Account → ℤ
combined balances accounts =
    sum_of (in_section balances income) accounts
    -ℤ sum_of (in_section balances cost_of_goods_sold) accounts
    -ℤ sum_of (in_section balances expense) accounts
    +ℤ sum_of (in_section balances other_income) accounts
    -ℤ sum_of (in_section balances other_expense) accounts

-- A classified account of profit and loss stands in one of the five sections.
abbrev pub profit_share : Map AccountId ℤ → Account → ℤ
profit_share balances a =
    if is_profit_and_loss a.account_type then get_or_zero a.id balances else pos 0

-- The totals of one account, by its section.
only_zero : pos 0 -ℤ pos 0 -ℤ pos 0 +ℤ pos 0 -ℤ pos 0 ≡ neg (pos 0)
only_zero = omega int_laws

only_income : (z : ℤ) → neg z -ℤ pos 0 -ℤ pos 0 +ℤ pos 0 -ℤ pos 0 ≡ neg z
only_income z = omega int_laws

only_cost : (z : ℤ) → pos 0 -ℤ z -ℤ pos 0 +ℤ pos 0 -ℤ pos 0 ≡ neg z
only_cost z = omega int_laws

only_expense : (z : ℤ) → pos 0 -ℤ pos 0 -ℤ z +ℤ pos 0 -ℤ pos 0 ≡ neg z
only_expense z = omega int_laws

only_other_income : (z : ℤ) → pos 0 -ℤ pos 0 -ℤ pos 0 +ℤ neg z -ℤ pos 0 ≡ neg z
only_other_income z = omega int_laws

only_other_expense : (z : ℤ) → pos 0 -ℤ pos 0 -ℤ pos 0 +ℤ pos 0 -ℤ z ≡ neg z
only_other_expense z = omega int_laws

presented_of :
    (balances : Map AccountId ℤ) (a : Account) (t : AccountType)
    → a.account_type ≡ t
    → presented_amount balances a ≡ (
        if is_credit_presented t
        then neg (get_or_zero a.id balances)
        else get_or_zero a.id balances)
unfolding presented_amount
presented_of balances a t e = rw (e, presented_amount) refl

classified_share :
    (balances : Map AccountId ℤ) (a : Account)
    → IsClassified a
    → in_section balances income a
        -ℤ in_section balances cost_of_goods_sold a
        -ℤ in_section balances expense a
        +ℤ in_section balances other_income a
        -ℤ in_section balances other_expense a
      ≡ neg (profit_share balances a)
unfolding section_for is_profit_and_loss trial_balance_type neg
classified_share balances a (bank, found, agrees) =
    rw (found, in_section, section_for) (rw agrees only_zero)
classified_share balances a (accounts_receivable, found, agrees) =
    rw (found, in_section, section_for) (rw agrees only_zero)
classified_share balances a (other_current_asset, found, agrees) =
    rw (found, in_section, section_for) (rw agrees only_zero)
classified_share balances a (fixed_asset, found, agrees) =
    rw (found, in_section, section_for) (rw agrees only_zero)
classified_share balances a (other_asset, found, agrees) =
    rw (found, in_section, section_for) (rw agrees only_zero)
classified_share balances a (accounts_payable, found, agrees) =
    rw (found, in_section, section_for) (rw agrees only_zero)
classified_share balances a (credit_card, found, agrees) =
    rw (found, in_section, section_for) (rw agrees only_zero)
classified_share balances a (other_current_liability, found, agrees) =
    rw (found, in_section, section_for) (rw agrees only_zero)
classified_share balances a (long_term_liability, found, agrees) =
    rw (found, in_section, section_for) (rw agrees only_zero)
classified_share balances a (QuickBooksAccountClassification.equity, found, agrees) =
    rw (found, in_section, section_for) (rw agrees only_zero)
classified_share balances a (QuickBooksAccountClassification.income, found, agrees) =
    rw (found, in_section, section_for)
      (rw agrees (rw (presented_of balances a _ agrees) (only_income (get_or_zero a.id balances))))
classified_share balances a (QuickBooksAccountClassification.cost_of_goods_sold, found, agrees) =
    rw (found, in_section, section_for)
      (rw agrees (rw (presented_of balances a _ agrees) (only_cost (get_or_zero a.id balances))))
classified_share balances a (QuickBooksAccountClassification.expense, found, agrees) =
    rw (found, in_section, section_for)
      (rw agrees (rw (presented_of balances a _ agrees) (only_expense (get_or_zero a.id balances))))
classified_share balances a (QuickBooksAccountClassification.other_income, found, agrees) =
    rw (found, in_section, section_for)
      (rw (presented_of balances a AccountType.income agrees)
        (rw agrees (only_other_income (get_or_zero a.id balances))))
classified_share balances a (QuickBooksAccountClassification.other_expense, found, agrees) =
    rw (found, in_section, section_for)
      (rw (presented_of balances a AccountType.expense agrees)
        (rw agrees (only_other_expense (get_or_zero a.id balances))))

sub_step : (a s b t : ℤ) → a +ℤ s -ℤ (b +ℤ t) ≡ a -ℤ b +ℤ (s -ℤ t)
sub_step a s b t = omega int_laws

add_step : (a s b t : ℤ) → a +ℤ s +ℤ (b +ℤ t) ≡ a +ℤ b +ℤ (s +ℤ t)
add_step a s b t = omega int_laws

neg_add : (p q : ℤ) → neg p +ℤ neg q ≡ neg (p +ℤ q)
neg_add p q = omega int_laws

combined_step :
    (i c e j o is cs es js os p q : ℤ)
    → i -ℤ c -ℤ e +ℤ j -ℤ o ≡ neg p
    → is -ℤ cs -ℤ es +ℤ js -ℤ os ≡ neg q
    → i +ℤ is -ℤ (c +ℤ cs) -ℤ (e +ℤ es) +ℤ (j +ℤ js) -ℤ (o +ℤ os) ≡ neg (p +ℤ q)
combined_step i c e j o is cs es js os p q here later =
    rw
      (
        sub_step i is c cs,
        sub_step (i -ℤ c) (is -ℤ cs) e es,
        add_step (i -ℤ c -ℤ e) (is -ℤ cs -ℤ es) j js,
        sub_step (i -ℤ c -ℤ e +ℤ j) (is -ℤ cs -ℤ es +ℤ js) o os,
      )
      (rw (here, later) (neg_add p q))

combined-eq :
    (balances : Map AccountId ℤ) (accounts : List Account)
    → All IsClassified accounts
    → combined balances accounts ≡ neg (sum_of (profit_share balances) accounts)
unfolding sum_of
combined-eq balances [] h = omega int_laws
combined-eq balances (a ∷ rest) h =
    combined_step _ _ _ _ _ _ _ _ _ _ _ _ (classified_share balances a h.0)
      (combined-eq balances rest h.1)

-- On a chart that the classification check accepts, the five section totals of Profit & Loss,
-- combined as the net income is, count every income, expense and cost-of-goods-sold account of the
-- chart exactly once: they give the negated sum of those accounts' ledger balances.
pub net_income-sections :
    (balances : Map AccountId ℤ) (options : TrialBalanceOptions) (chart accounts : List Account)
    (i c e j o : List FinancialStatementRow × ℤ)
    → validated_list chart ≡ ok accounts
    → section_rows balances income options accounts ≡ ok i
    → section_rows balances cost_of_goods_sold options accounts ≡ ok c
    → section_rows balances expense options accounts ≡ ok e
    → section_rows balances other_income options accounts ≡ ok j
    → section_rows balances other_expense options accounts ≡ ok o
    → i.1 -ℤ c.1 -ℤ e.1 +ℤ j.1 -ℤ o.1 ≡ neg (sum_of (profit_share balances) chart)
net_income-sections balances options chart accounts i c e j o valid mi mc me mj mo =
    let (same, classified) = validated_list_inv chart accounts valid in
    rw
      (
        section_rows-total balances income options accounts i mi,
        section_rows-total balances cost_of_goods_sold options accounts c mc,
        section_rows-total balances expense options accounts e me,
        section_rows-total balances other_income options accounts j mj,
        section_rows-total balances other_expense options accounts o mo,
        same,
      )
      (combined-eq balances chart classified)
