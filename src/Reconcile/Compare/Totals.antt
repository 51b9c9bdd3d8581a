-- ===== src/Reconcile/Compare/Totals.antt =====
-- The Trial Balance that `from_balances` builds: its accounts, and its totals as sums of them.
use openqbw.Base.{◌≡◌, refl, ap, ◌∙◌, false, List, [], ◌∷◌, ok, >>=-eq-ok, arith, ok_injective}
use openqbw.Base.Int.{ℤ, pos, negsuc, neg, pos_part, neg_part, ◌+ℤ◌, int_laws}
use openqbw.Base.Map.{Map, get, insert, values, contains_key}
use openqbw.Base.Map.Laws.{IsSorted, insert-IsSorted}
use openqbw.Base.Order.{Ord}
use mathlib.Core.Path.{subst}
use openqbw.Base.Sum.{sum_of}
use openqbw.Base.Text.{Text, text_ord}
use openqbw.Base.Text.Strings.{trim}
use openqbw.Reconcile.Compare.{TrialBalance, no_balances, add_balance, add_balances, from_balances}

-- What a balance adds to the debits and to the credits.
abbrev pub debit_part : ℤ → ℤ
debit_part balance = pos (pos_part balance)

abbrev pub credit_part : ℤ → ℤ
credit_part balance = pos (neg_part balance)

pub record IsTotalled (tb : TrialBalance) : Type 0 where
  pub sorted : IsSorted tb.balances_cents
  pub debits : tb.total_debits_cents ≡ sum_of debit_part (values tb.balances_cents)
  pub credits : tb.total_credits_cents ≡ sum_of credit_part (values tb.balances_cents)

-- A new key adds its value to a sum over the map.
pub sum-insert {ℓ} :
    {K : Type ℓ} ⦃o : Ord K⦄ (f : ℤ → ℤ) (k : K) (v : ℤ) (m : Map K ℤ)
    → contains_key k m ≡ false
    → sum_of f (values (insert k v m)) ≡ sum_of f (values m) +ℤ f v
unfolding sum_of insert get
sum-insert f k v [] h = omega int_laws
sum-insert f k v ((j, w) ∷ m) h = grind (int_laws, sum-insert f k v m)

-- What a successful round does.
add_balance-eq-ok :
    (tb : TrialBalance) (name : Text) (balance : ℤ) {next : TrialBalance}
    → add_balance tb name balance ≡ ok next
    → (contains_key (trim name) tb.balances_cents ≡ false)
      × (next.balances_cents ≡ insert (trim name) balance tb.balances_cents)
      × (next.total_debits_cents ≡ tb.total_debits_cents +ℤ debit_part balance)
      × (next.total_credits_cents ≡ tb.total_credits_cents +ℤ credit_part balance)
unfolding add_balance neg ◌+ℤ◌
add_balance-eq-ok tb name (pos n) e = ground arith
add_balance-eq-ok tb name (negsuc n) e = ground arith

add_balance-IsTotalled :
    (tb : TrialBalance) (name : Text) (balance : ℤ) {next : TrialBalance}
    → IsTotalled tb
    → add_balance tb name balance ≡ ok next
    → IsTotalled next
add_balance-IsTotalled tb name balance {next} t e =
    let (new, accounts, debits, credits) = add_balance-eq-ok tb name balance e in
    record {
      sorted = rw accounts (insert-IsSorted (trim name) balance tb.balances_cents t.sorted);
      debits =
          rw (accounts, sum-insert debit_part (trim name) balance tb.balances_cents new)
            (debits ∙ ap (λ (total : ℤ). total +ℤ debit_part balance) t.debits);
      credits =
          rw (accounts, sum-insert credit_part (trim name) balance tb.balances_cents new)
            (credits ∙ ap (λ (total : ℤ). total +ℤ credit_part balance) t.credits);
    }

add_balances-IsTotalled :
    (tb : TrialBalance) (xs : List (Text × ℤ)) {result : TrialBalance}
    → IsTotalled tb
    → add_balances tb xs ≡ ok result
    → IsTotalled result
unfolding add_balances
add_balances-IsTotalled tb [] t e = subst IsTotalled (ok_injective e) t
add_balances-IsTotalled tb ((name, balance) ∷ xs) t e =
    let (next, added, later) = >>=-eq-ok (add_balance tb name balance) _ e in
    add_balances-IsTotalled next xs (add_balance-IsTotalled tb name balance t added) later

-- The Trial Balance that `from_balances` builds has its accounts in order, each once; its total
-- debits are the sum of the nonnegative balances, and its total credits that of the negative ones,
-- without their sign.
pub from_balances-IsTotalled :
    (xs : List (Text × ℤ)) {tb : TrialBalance} → from_balances xs ≡ ok tb → IsTotalled tb
unfolding from_balances sum_of
from_balances-IsTotalled xs e =
    add_balances-IsTotalled no_balances xs (record { sorted = tt; debits = refl; credits = refl }) e
