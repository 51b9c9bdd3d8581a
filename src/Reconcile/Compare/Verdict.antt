-- ===== src/Reconcile/Compare/Verdict.antt =====
-- The verdict of a reconciliation is the equality of the two Trial Balances.
use openqbw.Base.{◌≡◌, ◌↔◌, refl, ap, Bool, true, ◌&&◌, arith, List, ok}
use openqbw.Base.Int.{
  ℤ, pos, pos_part, neg_part, eq_of_parts, -ℤ_parts, int_laws, eq_ℤ, eq_ℤ_iff, ◌-ℤ◌,
}
use openqbw.Base.Map.Laws.{IsSorted}
use mathlib.Core.Path.{subst}
use openqbw.Base.Text.{Text, text_ord}
use openqbw.Reconcile.Compare.{
  TrialBalance, reconcile_trial_balances, passes, is_balanced, from_balances,
}
use openqbw.Reconcile.Compare.Match.{compare_accounts_iff}
use openqbw.Reconcile.Compare.Totals.{from_balances-IsTotalled}

and_true : (a b : Bool) → (a && b) ≡ true → (a ≡ true) × (b ≡ true)
and_true a b h = ground arith

true_and : {a b : Bool} → a ≡ true → b ≡ true → (a && b) ≡ true
true_and h k = rw h k

TrialBalance-ext :
    (r a : TrialBalance)
    → r.balances_cents ≡ a.balances_cents
    → r.total_debits_cents ≡ a.total_debits_cents
    → r.total_credits_cents ≡ a.total_credits_cents
    → r ≡ a
TrialBalance-ext r a b d c = cc

no_variance : (a b : ℤ) → eq_ℤ (a -ℤ b) (pos 0) ≡ true → b ≡ a
no_variance a b h =
    let zero_variance = (eq_ℤ_iff (a -ℤ b) (pos 0)).0 h in
    eq_of_parts b a
      (omega (arith, -ℤ_parts a b, ap pos_part zero_variance, ap neg_part zero_variance))

eq_ℤ-self : (a : ℤ) → eq_ℤ (a -ℤ a) (pos 0) ≡ true
eq_ℤ-self a = (eq_ℤ_iff (a -ℤ a) (pos 0)).1 (omega int_laws)

passes_self :
    (tb : TrialBalance)
    → IsSorted tb.balances_cents
    → is_balanced tb ≡ true
    → passes (reconcile_trial_balances tb tb) ≡ true
unfolding passes reconcile_trial_balances
passes_self tb s b = true_and ((compare_accounts_iff tb tb s s).1 refl) (
    true_and b (
      true_and b (
        true_and (eq_ℤ-self tb.total_debits_cents) (
          true_and (eq_ℤ-self tb.total_credits_cents)
            (eq_ℤ-self (tb.total_debits_cents -ℤ tb.total_credits_cents))))))

-- Of Trial Balances with sorted accounts, the reconciliation passes exactly when the two are equal
-- and balanced.
pub passes-reconcile_iff :
    (reference actual : TrialBalance)
    → IsSorted reference.balances_cents
    → IsSorted actual.balances_cents
    → (passes (reconcile_trial_balances reference actual) ≡ true)
      ↔ ((reference ≡ actual) × (is_balanced reference ≡ true))
unfolding passes reconcile_trial_balances
passes-reconcile_iff reference actual s t = (
  λ h.
      let (clean, rest) = and_true _ _ h in
      let (balanced, rest') = and_true _ _ rest in
      let (_, rest'') = and_true _ _ rest' in
      let (debits, rest''') = and_true _ _ rest'' in
      let (credits, _) = and_true _ _ rest''' in
      (
        TrialBalance-ext reference actual ((compare_accounts_iff reference actual s t).0 clean)
            (no_variance actual.total_debits_cents reference.total_debits_cents debits)
            (no_variance actual.total_credits_cents reference.total_credits_cents credits),
        balanced,
      ),
  λ h.
      subst (λ other. passes (reconcile_trial_balances reference other) ≡ true) h.0
        (passes_self reference s h.1),
)

-- Of two Trial Balances that `from_balances` built, the reconciliation passes exactly when they are
-- equal, account for account and total for total, and balanced.
pub passes-reconcile_trial_balances_iff :
    (xs ys : List (Text × ℤ)) {reference actual : TrialBalance}
    → from_balances xs ≡ ok reference
    → from_balances ys ≡ ok actual
    → (passes (reconcile_trial_balances reference actual) ≡ true)
      ↔ ((reference ≡ actual) × (is_balanced reference ≡ true))
passes-reconcile_trial_balances_iff xs ys {reference} {actual} e f =
    passes-reconcile_iff reference actual (from_balances-IsTotalled xs e).sorted
      (from_balances-IsTotalled ys f).sorted
