-- ===== src/Reconcile/Columns.antt =====
-- The parts that both readers of a Trial Balance export share.
use openqbw.Base.{
  ℕ, Bool, false, not, ◌&&◌, ◌||◌, [], Option, none, some, is_some, get_elem?, if◌then◌else◌,
}
use openqbw.Base.Order.{◌=?◌}
use openqbw.Base.Text.{Text, codes, text_ord, is_whitespace}
use openqbw.Base.Text.Strings.{
  trim, trim_start, to_ascii_lowercase, strip_prefix, split_once, first, last, list_is_empty, all,
  is_ascii_digit, unwrap_or,
}
use openqbw.Reconcile.Csv.{Record}

-- `cell`: a cell that is missing is empty.
unfoldable pub cell : Record → ℕ → Text
cell row index = unwrap_or [] (get_elem? row index)

unfoldable pub is_total_row : Text → Bool
unfolding trim to_ascii_lowercase strip_prefix
is_total_row account =
    let folded = to_ascii_lowercase (trim account) in
    folded =? codes "total"
    || (is_some (strip_prefix (codes "total ") folded)
        || is_some (strip_prefix (codes "total:") folded))

abbrev pub holds : (ℕ → Bool) → Option ℕ → Bool
holds p none = false
holds p (some c) = p c

-- What stands before the middle dot is an account number: digits, then white space.
abbrev pub is_number_prefix : Text → Text → Bool
unfolding trim is_whitespace
is_number_prefix number name =
    not (list_is_empty (trim number))
    && (all is_ascii_digit (trim number)
        && (holds is_whitespace (last number) && holds is_whitespace (first name)))

unfoldable pub canonical_native_account_full_name : Text → Text
unfolding trim trim_start split_once is_number_prefix
canonical_native_account_full_name account = elim (split_once 0xb7 (trim account)) [
  | none ↦ trim account
  | some (number, name) ↦ if is_number_prefix number name then trim_start name else trim account
]

-- The heading of a column, folded.
unfoldable pub heading : Text → Text
unfolding trim to_ascii_lowercase
heading value = to_ascii_lowercase (trim value)

abbrev pub or {ℓ} : {A : Type ℓ} → Option A → Option A → Option A
or (some a) other = some a
or none other = other
