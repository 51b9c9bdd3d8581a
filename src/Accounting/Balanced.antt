-- ===== src/Accounting/Balanced.antt =====
-- `assert_balanced_by_transaction`: every transaction nets to zero.
use openqbw.Base.{◌≡◌, ◌↔◌, refl, sym, ◌∙◌, List, [], ◌∷◌, ok, arith, inl, inr, Bool-cases}
use openqbw.Base.Int.{ℤ, pos, eq_ℤ_iff, int_laws}
use openqbw.Base.Text.{text_ord}
use openqbw.Base.Order.{◌=?◌}
use openqbw.Base.Map.{Map, get, entry_add, get_or_zero, values}
use openqbw.Base.Map.Laws.{IsSorted}
use openqbw.Base.Map.Sums.{get_or_zero_head, get_or_zero_tail}
use openqbw.Base.Map.Totals.{fill, share, fill-IsSorted, sum-fill_empty, get_or_zero-fill_empty}
use openqbw.Base.Sum.{sum_of}
use openqbw.Accounting.Types.{TransactionId, GeneralLedgerEntry}
use openqbw.Accounting.Reports.{
  transaction_totals, require_zero_totals, assert_balanced_by_transaction,
}
use openqbw.Accounting.Selection.{entry_amount, entry_transaction}

transaction_totals-fill :
    (m : Map TransactionId ℤ) (es : List GeneralLedgerEntry)
    → transaction_totals m es ≡ fill entry_transaction entry_amount m es
unfolding transaction_totals fill
transaction_totals-fill m [] = refl
transaction_totals-fill m (e ∷ es) =
    transaction_totals-fill (entry_add (entry_transaction e) (entry_amount e) m) es

require_zero_totals-get :
    (m : Map TransactionId ℤ)
    → require_zero_totals m ≡ ok tt
    → (t : TransactionId) → get_or_zero t m ≡ pos 0
unfolding require_zero_totals get
require_zero_totals-get [] e t = refl
require_zero_totals-get ((k, v) ∷ m) e t = ground (
  arith,
  eq_ℤ_iff v (pos 0),
  λ (h : require_zero_totals m ≡ ok tt). require_zero_totals-get m h t,
)

require_zero_totals-sum :
    (m : Map TransactionId ℤ) → require_zero_totals m ≡ ok tt → sum_of (λ v. v) (values m) ≡ pos 0
unfolding require_zero_totals sum_of
require_zero_totals-sum [] e = refl
require_zero_totals-sum ((k, v) ∷ m) e =
    grind (int_laws, eq_ℤ_iff v (pos 0), require_zero_totals-sum m)

require_zero_totals_of_get :
    (m : Map TransactionId ℤ)
    → IsSorted m
    → ((t : TransactionId) → get_or_zero t m ≡ pos 0)
    → require_zero_totals m ≡ ok tt
unfolding require_zero_totals
require_zero_totals_of_get [] s h = refl
require_zero_totals_of_get ((k, v) ∷ m) s h =
    let zero_head : v ≡ pos 0 = sym (get_or_zero_head k v m) ∙ h k in
    let zero_tail : (t : TransactionId) → get_or_zero t m ≡ pos 0 = λ t.
      get_or_zero_tail k t v m s
      ∙ elim (Bool-cases (t =? k)) [ inl e ↦ rw e | inr e ↦ rw e (h t) ] in
    rw zero_head (require_zero_totals_of_get m s.1 zero_tail)

transaction_total :
    (es : List GeneralLedgerEntry) (t : TransactionId)
    → get_or_zero t (transaction_totals [] es) ≡ sum_of (share entry_transaction entry_amount t) es
transaction_total es t =
    rw (transaction_totals-fill [] es) (get_or_zero-fill_empty entry_transaction entry_amount t es)

-- The check passes exactly on entries whose every transaction nets to zero; all of them then do too.
pub assert_balanced_iff :
    (es : List GeneralLedgerEntry)
    → (assert_balanced_by_transaction es ≡ ok tt)
      ↔ ((t : TransactionId) → sum_of (share entry_transaction entry_amount t) es ≡ pos 0)
unfolding assert_balanced_by_transaction
assert_balanced_iff es = (
  λ h t. sym (transaction_total es t) ∙ require_zero_totals-get (transaction_totals [] es) h t,
  λ h.
      require_zero_totals_of_get (transaction_totals [] es)
        (rw (transaction_totals-fill [] es) (fill-IsSorted entry_transaction entry_amount [] es tt))
        (λ t. transaction_total es t ∙ h t),
)

-- Where the check passes, all entries together net to zero.
pub assert_balanced-sum :
    (es : List GeneralLedgerEntry)
    → assert_balanced_by_transaction es ≡ ok tt
    → sum_of entry_amount es ≡ pos 0
unfolding assert_balanced_by_transaction
assert_balanced-sum es h =
    sym (sum-fill_empty entry_transaction entry_amount es)
    ∙ rw (← transaction_totals-fill [] es) (require_zero_totals-sum (transaction_totals [] es) h)
