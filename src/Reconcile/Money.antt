-- ===== src/Reconcile/Money.antt =====
-- `parse_money_cents`: a displayed amount of dollars, in cents.
use openqbw.Base.{
  ℕ, ◌+◌, ◌*◌, ◌-◌, Bool, true, false, not, ◌&&◌, ◌||◌, [], ◌∷◌, none, some, ok, err, ◌>>=◌, ◌==◌,
  ltb, length, if◌then◌else◌,
}
use openqbw.Base.Int.{ℤ, pos, neg}
use openqbw.Base.Text.{Text, codes, text_ord}
use openqbw.Base.Text.Decimal.{parse_i64}
use openqbw.Base.Text.Strings.{
  trim, strip_prefix, split_once, first, last, is_char, without_last, list_is_empty, all,
  is_ascii_digit, unwrap_or,
}
use openqbw.Reconcile.Errors.{Result, invalid_amount, amount_overflow}
use openqbw.Reconcile.Compare.{in_i64}

-- `text[1..]`, where the first character is a parenthesis
abbrev pub without_first : Text → Text
without_first [] = []
without_first (c ∷ s) = s

-- The sign that is read so far, and the text behind it.
abbrev pub Signed : Type 0
Signed = Bool × Text

-- `(…)`: the accountant's minus.
unfoldable pub strip_parentheses : Text → Signed
strip_parentheses text =
    if is_char 40 (first text) && is_char 41 (last text)
    then (true, without_last (without_first text))
    else (false, text)

unfoldable pub strip_sign : Signed → Signed
strip_sign (negative, text) =
    if is_char 45 (first text)
    then (true, without_first text)
    else if is_char 43 (first text)
    then (negative, without_first text)
    else (negative, text)

-- `text.trim().strip_prefix('$').unwrap_or(text.trim())`
unfoldable pub strip_currency : Text → Text
unfolding strip_prefix
strip_currency text = unwrap_or (trim text) (strip_prefix (codes "$") (trim text))

-- `filter(|c| *c != ',' && *c != ' ')`
unfoldable pub compact : Text → Text
compact [] = []
compact (c ∷ s) = let rest = compact s in if c == 44 || c == 32 then rest else c ∷ rest

-- The digits before and after the point.
unfoldable pub split_point : Text → Text × Text
unfolding split_once
split_point text = unwrap_or (text, []) (split_once 46 text)

abbrev pub digit : ℕ → ℕ
digit c = c - 48

-- The cents of at most two digits.
unfoldable pub fraction_cents : Text → ℕ
fraction_cents [] = 0
fraction_cents (a ∷ []) = digit a * 10
fraction_cents (a ∷ b ∷ rest) = digit a * 10 + digit b

abbrev pub is_amount : Text → Text → Bool
is_amount whole fraction =
    not (list_is_empty whole)
    && (all is_ascii_digit whole && (all is_ascii_digit fraction && ltb (length fraction) 3))

-- `checked_mul(100)` and `checked_add(fractional)`
unfoldable pub cents_of : ℤ → ℕ → Result ℤ
cents_of (pos whole) fraction =
    in_i64 (pos (whole * 100)) >>= λ _. in_i64 (pos (whole * 100 + fraction))
cents_of whole fraction = err amount_overflow

abbrev pub with_sign : Bool → ℤ → ℤ
with_sign negative cents = if negative then neg cents else cents

unfoldable pub amount_cents : Text → Bool → Text → Text → Result ℤ
amount_cents value negative whole fraction =
    if is_amount whole fraction
    then elim (parse_i64 whole) [
      | none ↦ err amount_overflow
      | some n ↦ cents_of n (fraction_cents fraction) >>= λ cents. ok (with_sign negative cents)
    ]
    else err (invalid_amount value)

-- What follows once the sign is read.
unfoldable pub after_sign : Text → Signed → Result ℤ
after_sign value (negative, unsigned) =
    let digits = compact (strip_currency unsigned) in
    let (whole, fraction) = split_point digits in
    if list_is_empty digits
    then err (invalid_amount value)
    else amount_cents value negative whole fraction

unfoldable pub parse_money_cents : Text → Result ℤ
parse_money_cents value =
    let text = trim value in
    if list_is_empty text || (is_char 45 (first text) && list_is_empty (without_first text))
    then ok (pos 0)
    else after_sign value (strip_sign (strip_parentheses text))
