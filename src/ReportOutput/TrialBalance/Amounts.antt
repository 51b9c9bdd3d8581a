-- ===== src/ReportOutput/TrialBalance/Amounts.antt =====
-- A displayed amount is read back to the cent.
use openqbw.Base.{
  ℕ, suc, ◌+◌, ◌/◌, ◌%◌, ◌^◌, ◌-◌, ◌≤◌, ◌≡◌, refl, ◌∙◌, ap, Bool, true, false, [], ◌∷◌, ◌++◌, some,
  ok, All, arith, ◌==◌, ltb,
}
use openqbw.Base.Int.{ℤ, pos, negsuc, neg, pos_part, neg_part}
use openqbw.Base.Text.{Text, is_whitespace}
use openqbw.Base.Text.Decimal.{nat_to_string}
use openqbw.Base.Text.Decimal.RoundTrip.{
  IsDigit, nat_to_string-IsDigit, nat_to_string_cons, parse_i64-nat_to_string,
}
use openqbw.Base.Text.Strings.{trim, list_is_empty, all, is_ascii_digit, split_once}
use openqbw.Base.Text.Strings.Trimmed.{trim-solid}
use openqbw.Reconcile.Money.{
  strip_parentheses, strip_sign, strip_currency, compact, split_point, fraction_cents, cents_of,
  amount_cents, after_sign, parse_money_cents, is_amount, with_sign,
}
use openqbw.ReportOutput.TrialBalance.{format_cents, two_digits}

-- The characters of an amount without its sign.
abbrev IsAmountChar : ℕ → Type 0
IsAmountChar c = (46 ≤ c) × (c ≤ 57)

All-append : (P : ℕ → Type 0) (s t : Text) → All P s → All P t → All P (s ++ t)
All-append P [] t h k = k
All-append P (c ∷ s) t h k = (h.0, All-append P s t h.1 k)

digits-IsAmountChar : (s : Text) → All IsDigit s → All IsAmountChar s
digits-IsAmountChar [] h = tt
digits-IsAmountChar (c ∷ s) h = (omega arith, digits-IsAmountChar s h.1)

solid_amount : (s : Text) → All IsAmountChar s → All (λ c. is_whitespace c ≡ false) s
unfolding is_whitespace
solid_amount [] h = tt
solid_amount (c ∷ s) h = (ground arith, solid_amount s h.1)

compact-amount : (s : Text) → All IsAmountChar s → compact s ≡ s
unfolding compact
compact-amount [] h = refl
compact-amount (c ∷ s) h = ground (arith, compact-amount s h.1)

split_once-digits : (s t : Text) → All IsDigit s → split_once 46 (s ++ 46 ∷ t) ≡ some (s, t)
unfolding split_once
split_once-digits [] t h = refl
split_once-digits (c ∷ s) t h = ground (arith, split_once-digits s t h.1)

all-digits : (s : Text) → All IsDigit s → all is_ascii_digit s ≡ true
all-digits [] h = refl
all-digits (c ∷ s) h = ground (arith, all-digits s h.1)

-- The amount of `n` cents without a sign.
abbrev body : ℕ → Text
body n = nat_to_string (n / 100) ++ 46 ∷ two_digits (n % 100)

body-IsAmountChar : (n : ℕ) → All IsAmountChar (body n)
body-IsAmountChar n =
    All-append IsAmountChar (nat_to_string (n / 100)) (46 ∷ two_digits (n % 100))
      (digits-IsAmountChar (nat_to_string (n / 100)) (nat_to_string-IsDigit (n / 100)))
      (omega arith)

-- Its first character is a digit.
body_cons : (n : ℕ) → (c : ℕ) × (s : Text) × (body n ≡ c ∷ s) × IsDigit c
body_cons n =
    let (c, s, e, d) = nat_to_string_cons (n / 100) in (c, s ++ 46 ∷ two_digits (n % 100), rw e, d)

strip_currency-body : (n : ℕ) → strip_currency (body n) ≡ body n
unfolding strip_currency
strip_currency-body n =
    let (c, s, e, d) = body_cons n in
    let not_dollar : (36 == c) ≡ false = ground arith in
    rw (trim-solid (body n) (solid_amount (body n) (body-IsAmountChar n))) (rw e (rw not_dollar))

split_point-body : (n : ℕ) → split_point (body n) ≡ (nat_to_string (n / 100), two_digits (n % 100))
unfolding split_point
split_point-body n = rw (
    split_once-digits (nat_to_string (n / 100)) (two_digits (n % 100))
      (nat_to_string-IsDigit (n / 100)))

is_amount-body : (n : ℕ) → is_amount (nat_to_string (n / 100)) (two_digits (n % 100)) ≡ true
is_amount-body n =
    let (c, s, e, d) = nat_to_string_cons (n / 100) in
    let digits = rw e at (all-digits (nat_to_string (n / 100)) (nat_to_string-IsDigit (n / 100))) in
    rw e (rw digits (ground arith))

cents_of-body :
    (n : ℕ)
    → n ≤ 2 ^ 63 - 1
    → cents_of (pos (n / 100)) (fraction_cents (two_digits (n % 100))) ≡ ok (pos n)
unfolding cents_of fraction_cents
cents_of-body n h = ground arith

amount_cents-body :
    (value : Text) (negative : Bool) (n : ℕ)
    → n ≤ 2 ^ 63 - 1
    → amount_cents value negative (nat_to_string (n / 100)) (two_digits (n % 100))
      ≡ ok (with_sign negative (pos n))
unfolding amount_cents
amount_cents-body value negative n h =
    rw (is_amount-body n)
      (rw (parse_i64-nat_to_string (n / 100) (omega arith)) (rw (cents_of-body n h)))

-- What is read behind the sign.
read_body :
    (value : Text) (negative : Bool) (n : ℕ)
    → n ≤ 2 ^ 63 - 1
    → after_sign value (negative, body n) ≡ ok (with_sign negative (pos n))
unfolding after_sign
read_body value negative n h =
    let (c, s, e, d) = body_cons n in
    let filled : list_is_empty (body n) ≡ false = rw e in
    rw (strip_currency-body n) (
      rw (compact-amount (body n) (body-IsAmountChar n))
        (rw filled (rw (split_point-body n) (amount_cents-body value negative n h))))

trim-format : (n : ℕ) → trim (45 ∷ body n) ≡ 45 ∷ body n
trim-format n =
    trim-solid (45 ∷ body n)
      (unfold is_whitespace in refl, solid_amount (body n) (body-IsAmountChar n))

-- A text that begins with a digit has no sign; one that begins with a minus has it.
parse_unsigned :
    (c : ℕ) (s : Text)
    → IsDigit c
    → trim (c ∷ s) ≡ c ∷ s
    → parse_money_cents (c ∷ s) ≡ after_sign (c ∷ s) (false, c ∷ s)
unfolding parse_money_cents strip_parentheses strip_sign
parse_unsigned c s d t =
    let not_minus : (c == 45) ≡ false = ground arith in
    let not_plus : (c == 43) ≡ false = ground arith in
    let not_open : (c == 40) ≡ false = ground arith in
    rw t (rw not_minus (rw not_open (rw not_minus (rw not_plus))))

parse_negative :
    (c : ℕ) (s : Text)
    → trim (45 ∷ c ∷ s) ≡ 45 ∷ c ∷ s
    → parse_money_cents (45 ∷ c ∷ s) ≡ after_sign (45 ∷ c ∷ s) (true, c ∷ s)
unfolding parse_money_cents strip_parentheses strip_sign
parse_negative c s t = rw t

parse-body : (n : ℕ) → n ≤ 2 ^ 63 - 1 → parse_money_cents (body n) ≡ ok (pos n)
parse-body n h =
    let (c, s, e, d) = body_cons n in
    let trimmed = trim-solid (body n) (solid_amount (body n) (body-IsAmountChar n)) in
    let unsigned = parse_unsigned c s d (rw e at trimmed) in
    (rw (← e) at unsigned) ∙ read_body (body n) false n h

parse-minus_body : (n : ℕ) → n ≤ 2 ^ 63 - 1 → parse_money_cents (45 ∷ body n) ≡ ok (neg (pos n))
parse-minus_body n h =
    let (c, s, e, d) = body_cons n in
    let signed = parse_negative c s (rw e at (trim-format n)) in
    (rw (← e) at signed) ∙ read_body (45 ∷ body n) true n h

-- An amount that is displayed with two decimals is read back to the cent. The condition leaves out
-- i64::MIN alone, whose amount without its sign is no i64.
pub parse_money_cents-format_cents :
    (cents : ℤ)
    → pos_part cents ≤ 2 ^ 63 - 1
    → neg_part cents ≤ 2 ^ 63 - 1
    → parse_money_cents (format_cents cents) ≡ ok cents
unfolding format_cents neg
parse_money_cents-format_cents (pos n) h k =
    let same : n + 0 ≡ n = omega arith in
    let no_sign : ltb n 0 ≡ false = ground arith in rw same (rw no_sign (parse-body n h))
parse_money_cents-format_cents (negsuc n) h k =
    let same : 0 + suc n ≡ suc n = omega arith in
    let signed : ltb 0 (suc n) ≡ true = ground arith in
    let minus : neg (pos (suc n)) ≡ negsuc n = ground arith in
    rw same (rw signed (parse-minus_body (suc n) k ∙ ap ok minus))
