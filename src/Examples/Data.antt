-- ===== src/Examples/Data.antt =====
-- A small chart and ledger.
use openqbw.Base.{List, [], ◌∷◌, none, some, false, true, Option, ◌≡◌, refl, ok}
use openqbw.Base.Int.{ℤ, pos, negsuc}
use openqbw.Base.Text.{Text, codes}
use openqbw.Accounting.Types.{
  AccountId, Account, active, Posting, current, deleted, CurrentState, Ledger, complete,
  TrialBalanceOptions, QuickBooksAccrualTrialBalancePolicy,
}
use openqbw.Accounting.Types.Classification.{
  AccountType, QuickBooksAccountClassification, bank, other_income,
}
use openqbw.Accounting.NewLedger.{new_ledger}

abbrev account_of :
    Text → Option AccountId → AccountType → QuickBooksAccountClassification → Account
account_of id parent type c = record {
  id = id;
  account_number = none;
  name = id;
  parent_account_id = parent;
  account_type = type;
  quickbooks_classification = some c;
  is_active = true;
  activity = active;
}

abbrev pub cash : Account
cash = account_of (codes "cash") none AccountType.asset bank

abbrev pub till : Account
till = account_of (codes "till") (some (codes "cash")) AccountType.asset bank

abbrev pub sales : Account
sales = account_of (codes "sales") none AccountType.income QuickBooksAccountClassification.income

abbrev pub interest : Account
interest = account_of (codes "interest") none AccountType.income other_income

abbrev pub earnings : Account
earnings =
    account_of (codes "earnings") none AccountType.equity QuickBooksAccountClassification.equity

abbrev pub chart : List Account
chart = cash ∷ till ∷ sales ∷ interest ∷ earnings ∷ []

abbrev posting_of : Text → Text → Text → ℤ → ℤ → CurrentState → Posting
posting_of transaction id account date amount state = record {
  transaction_id = transaction;
  id = id;
  account_id = account;
  date = date;
  signed_minor_units = amount;
  current_state = state;
  provenance = record {
    source_row = id;
    page_number = none;
    slot_number = none;
    decoder = codes "d";
  };
  transaction_type = none;
  memo = none;
}

-- A sale in an earlier year, one in the current year, interest, and a deleted row.
abbrev pub postings : List Posting
postings =
    posting_of (codes "t1") (codes "p1") (codes "till") (pos 10) (pos 500) current
    ∷ posting_of (codes "t1") (codes "p2") (codes "sales") (pos 10) (negsuc 499) current
    ∷ posting_of (codes "t2") (codes "p3") (codes "sales") (pos 20) (negsuc 299) current
    ∷ posting_of (codes "t2") (codes "p4") (codes "till") (pos 20) (pos 300) current
    ∷ posting_of (codes "t3") (codes "p5") (codes "cash") (pos 21) (pos 7) current
    ∷ posting_of (codes "t3") (codes "p6") (codes "interest") (pos 21) (negsuc 6) current
    ∷ posting_of (codes "t4") (codes "p7") (codes "cash") (pos 22) (pos 9) deleted
    ∷ []

abbrev pub ledger : Ledger
ledger = record {
  accounts =
      (codes "cash", cash)
      ∷ (codes "earnings", earnings)
      ∷ (codes "interest", interest)
      ∷ (codes "sales", sales)
      ∷ (codes "till", till)
      ∷ [];
  postings = postings;
  completeness = complete;
}

abbrev pub nonzero : TrialBalanceOptions
nonzero = record { include_zero_balance_accounts = false }

abbrev pub policy : QuickBooksAccrualTrialBalancePolicy
policy = record { fiscal_year_start = pos 15; retained_earnings_account_id = codes "earnings" }

pub ledger_made : new_ledger chart postings complete ≡ ok ledger
unfolding new_ledger
ledger_made = refl
