-- ===== src/Rows/BillLine/Amount.antt =====
-- Where the amount of a Bill line stands, and that its parser never panics.
use openqbw.Base.{
  ok_injective, ℕ, zero, suc, ap, sym, ◌∙◌, length, length-take, take, drop, ◌+◌, ◌-◌, ◌≡◌, ◌≤◌,
  not, inl, inr, List, [], ◌∷◌, Option, none, some, Outcome, ok, err, panic, stuck, ◌>>=◌,
  >>=-eq-ok, All, ltb, ◌==◌, if◌then◌else◌, arith, Bool-cases, Option-cases,
}
use openqbw.Cents.{PostingCents, parse_cents}
use openqbw.Rows.{byte_at, slice, eq_of_guard}
use openqbw.Rows.BillLine.{
  BillLineError, Candidate, bytes_at, accepted_candidate, candidate_at, push, candidates,
  digit_counts, all_same, is_repeated, repeated, only, amount_outside_segment,
  parse_trailing_amount,
}

-- A token from `start` up to where the amount ends: its first byte counts its digits, four at most,
-- which one more byte follows, so that the count fills it; and it reads as the amount.
pub record IsToken (input : List ℕ) (amount_end : ℕ) (amount : PostingCents) : Type 0 where
  pub digits : ℕ
  pub start : ℕ
  pub rest : List ℕ
  pub few : digits ≤ 4
  pub ends : start + (digits + 2) ≡ amount_end
  pub filled : length rest ≡ digits + 1
  pub stands : slice input start (digits + 2) ≡ some (digits ∷ rest)
  pub reads : parse_cents (digits ∷ rest) ≡ ok amount

abbrev pub IsCandidate : List ℕ → ℕ → Candidate → Type 0
IsCandidate input amount_end c = (c.start ≤ amount_end) × IsToken input amount_end c.amount

abbrev pub AllTokens : List ℕ → ℕ → List Candidate → Type 0
AllTokens input amount_end cs = All (IsCandidate input amount_end) cs

-- What an `Option` holds.
abbrev Held : (Candidate → Type 0) → Option Candidate → Type 0
Held P none = Unit
Held P (some c) = P c

accepted_candidate-some :
    {E : Type 0} (start : ℕ) (m : Outcome E PostingCents) (o : Option Candidate)
    → accepted_candidate start m ≡ ok o
    → Held (λ c. (c.start ≡ start) × (m ≡ ok c.amount)) o
accepted_candidate-some start (ok amount) none e = tt
accepted_candidate-some start (ok amount) (some c) e = (cc e, cc e)
accepted_candidate-some start (err x) none e = tt
accepted_candidate-some start (err x) (some c) e = cc
accepted_candidate-some start panic o e = cc
accepted_candidate-some start stuck o e = cc

bytes_at-eq-ok :
    (input : List ℕ) (start n : ℕ) (bytes : List ℕ)
    → bytes_at input start n ≡ ok bytes
    → slice input start n ≡ some bytes
unfolding bytes_at
bytes_at-eq-ok input start n bytes e = elim (Option-cases (slice input start n)) [
  | inl short ↦ cc (rw (short, bytes_at) at e)
  | inr (found, cut) ↦ cc (cut, rw (cut, bytes_at) at e)
]

-- The bytes of a slice begin with the byte at its start.
take-drop-head :
    {E : Type 0} (input : List ℕ) (start n b : ℕ)
    → byte_at {E = E} input start ≡ ok b
    → start + suc n ≤ length input
    → (rest : List ℕ) × (take (suc n) (drop start input) ≡ b ∷ rest) × (length rest ≡ n)
unfolding byte_at
take-drop-head [] start n b e h = absurd (cc e)
take-drop-head (x ∷ xs) zero n b e h =
    (take n xs, ap (λ y. y ∷ take n xs) (ok_injective e), length-take n xs (omega arith))
take-drop-head (x ∷ xs) (suc start) n b e h = take-drop-head xs start n b e (omega arith)

slice-head :
    {E : Type 0} (input : List ℕ) (start n m b : ℕ) (bytes : List ℕ)
    → byte_at {E = E} input start ≡ ok b
    → m ≡ suc n
    → slice input start m ≡ some bytes
    → (rest : List ℕ) × (bytes ≡ b ∷ rest) × (length rest ≡ n)
unfolding slice
slice-head input start n m b bytes at_start more cut =
    let cut1 : slice input start (suc n) ≡ some bytes = rw (← more) cut in
    let (rest, begins, len) = take-drop-head input start n b at_start (ground arith) in
    let same : take (suc n) (drop start input) ≡ bytes = ground arith in
    (rest, sym same ∙ begins, len)

pub IsToken-of_bytes :
    {E : Type 0} (input : List ℕ) (amount_end digits : ℕ) (token : List ℕ) (amount : PostingCents)
    → digits ≤ 4
    → digits + 2 ≤ amount_end
    → byte_at {E = E} input (amount_end - (digits + 2)) ≡ ok digits
    → slice input (amount_end - (digits + 2)) (digits + 2) ≡ some token
    → parse_cents token ≡ ok amount
    → IsToken input amount_end amount
IsToken-of_bytes input amount_end digits token amount few room counted stands reads =
    let start = amount_end - (digits + 2) in
    let (rest, begins, filled) =
      slice-head input start (digits + 1) (digits + 2) digits token counted (omega arith) stands in
    record {
      digits = digits;
      start = start;
      rest = rest;
      few = few;
      ends = omega arith;
      filled = filled;
      stands = rw (← begins) stands;
      reads = rw (← begins) reads;
    }

candidate_at-IsToken :
    (input : List ℕ) (amount_end digits : ℕ) (o : Option Candidate)
    → digits ≤ 4
    → candidate_at input amount_end digits ≡ ok o
    → Held (IsCandidate input amount_end) o
unfolding candidate_at
candidate_at-IsToken input amount_end digits none few e = tt
candidate_at-IsToken input amount_end digits (some c) few e =
    elim (Bool-cases (ltb amount_end (digits + 2))) [
      | inl before ↦ absurd (cc (rw (before, candidate_at) at e))
      | inr room ↦
          let e1 = rw (room, candidate_at) at e in
          let (count, counted, e2) = >>=-eq-ok (byte_at input (amount_end - (digits + 2))) _ e1 in
          elim (Bool-cases (not (count == digits))) [
            | inl other ↦ absurd (cc (rw other at e2))
            | inr counts ↦
                let (token, cut, e3) =
                  >>=-eq-ok (bytes_at input (amount_end - (digits + 2)) (digits + 2)) _
                    (rw counts at e2) in
                let (begins, reads) =
                  accepted_candidate-some (amount_end - (digits + 2)) (parse_cents token) (some c)
                    e3 in
                (
                  omega (arith, begins),
                  IsToken-of_bytes input amount_end digits token c.amount few (ground arith)
                      (counted ∙ ap ok (eq_of_guard count digits counts))
                      (bytes_at-eq-ok input (amount_end - (digits + 2)) (digits + 2) token cut)
                      reads,
                )
          ]
    ]

push-AllTokens :
    (input : List ℕ) (amount_end : ℕ) (o : Option Candidate) (cs : List Candidate)
    → Held (IsCandidate input amount_end) o
    → AllTokens input amount_end cs
    → AllTokens input amount_end (push o cs)
push-AllTokens input amount_end none cs h t = t
push-AllTokens input amount_end (some c) cs h t = (h, t)

pub candidates-AllTokens :
    (input : List ℕ) (amount_end : ℕ) (counts : List ℕ) (cs : List Candidate)
    → All (λ n. n ≤ 4) counts
    → candidates input amount_end counts ≡ ok cs
    → AllTokens input amount_end cs
unfolding candidates
candidates-AllTokens input amount_end [] cs h e = let nothing : cs ≡ [] = cc e in rw nothing tt
candidates-AllTokens input amount_end (digits ∷ more) cs h e =
    let (o, here, e1) = >>=-eq-ok (candidate_at input amount_end digits) _ e in
    let (later, rest, e2) = >>=-eq-ok (candidates input amount_end more) _ e1 in
    rw (← ok_injective e2) (
      push-AllTokens input amount_end o later
        (candidate_at-IsToken input amount_end digits o h.0 here)
        (candidates-AllTokens input amount_end more later h.1 rest))

repeated-AllTokens :
    (input : List ℕ) (amount_end : ℕ) (cs kept : List Candidate)
    → AllTokens input amount_end cs
    → repeated input amount_end cs ≡ ok kept
    → AllTokens input amount_end kept
unfolding repeated
repeated-AllTokens input amount_end [] kept h e = let nothing : kept ≡ [] = cc e in rw nothing tt
repeated-AllTokens input amount_end (c ∷ cs) kept h e =
    let (keep, here, e1) = >>=-eq-ok (is_repeated input amount_end c) _ e in
    let (later, rest, e2) = >>=-eq-ok (repeated input amount_end cs) _ e1 in
    let tokens = repeated-AllTokens input amount_end cs later h.1 rest in
    elim (Bool-cases keep) [
      | inl kept_here ↦ rw (← ok_injective (rw kept_here at e2)) (h.0, tokens)
      | inr dropped ↦ rw (← ok_injective (rw dropped at e2)) tokens
    ]

only-IsToken :
    (input : List ℕ) (amount_end : ℕ) (cs : List Candidate) (amount : PostingCents)
    → AllTokens input amount_end cs
    → only cs ≡ ok amount
    → IsToken input amount_end amount
only-IsToken input amount_end [] amount h e = absurd (cc e)
only-IsToken input amount_end (c ∷ []) amount h e = rw (← ok_injective e) h.0.1
only-IsToken input amount_end (c ∷ d ∷ cs) amount h e = absurd (cc e)

-- The choice among the candidates.
abbrev pub pick : List ℕ → ℕ → List Candidate → Outcome BillLineError PostingCents
pick input amount_end [] = err amount_outside_segment
pick input amount_end (c ∷ rest) =
    if all_same c.amount rest then ok c.amount else repeated input amount_end (c ∷ rest) >>= only

pick-IsToken :
    (input : List ℕ) (amount_end : ℕ) (cs : List Candidate) (amount : PostingCents)
    → AllTokens input amount_end cs
    → pick input amount_end cs ≡ ok amount
    → IsToken input amount_end amount
pick-IsToken input amount_end [] amount h e = absurd (cc e)
pick-IsToken input amount_end (c ∷ rest) amount h e = elim (Bool-cases (all_same c.amount rest)) [
  | inl same ↦ rw (← ok_injective (rw same at e)) h.0.1
  | inr differ ↦
      let (kept, filtered, e1) =
        >>=-eq-ok (repeated input amount_end (c ∷ rest)) _ (rw differ at e) in
      only-IsToken input amount_end kept amount
        (repeated-AllTokens input amount_end (c ∷ rest) kept h filtered) e1
]

pub parse_trailing_amount-IsToken :
    (input : List ℕ) (amount_end : ℕ) (amount : PostingCents)
    → parse_trailing_amount input amount_end ≡ ok amount
    → IsToken input amount_end amount
unfolding parse_trailing_amount
parse_trailing_amount-IsToken input amount_end amount e =
    let (cs, read, e1) = >>=-eq-ok (candidates input amount_end digit_counts) _ e in
    let tokens =
      candidates-AllTokens input amount_end digit_counts cs
        (omega arith, (omega arith, (omega arith, (omega arith, (omega arith, tt))))) read in
    pick-IsToken input amount_end cs amount tokens e1
