-- ===== src/Rows/Deposit/Unique.antt =====
-- Every token at the end of a Deposit counterpart is among the candidates of the search.
use openqbw.Base.{
  ℕ, zero, suc, ◌+◌, ◌-◌, ◌≡◌, refl, ap, sym, ◌∙◌, false, not, inl, inr, List, [], ◌∷◌, ◌⊎◌, Option,
  none, some, ok, ok_injective, >>=-eq-ok, length, take, drop, ltb, ◌==◌, arith, Has,
}
use openqbw.Cents.{PostingCents, parse_cents}
use openqbw.Rows.{byte_at, slice}
use openqbw.Rows.BillLine.Amount.{IsToken}
use openqbw.Rows.Deposit.{
  DepositError, decode_amount, bytes_of, tail_candidate, push_amount, tail_candidates,
}

take-drop-byte :
    (input : List ℕ) (start m d : ℕ) (rest : List ℕ)
    → take m (drop start input) ≡ d ∷ rest
    → byte_at {E = DepositError} input start ≡ ok d
unfolding byte_at
take-drop-byte input start zero d rest e = absurd (cc e)
take-drop-byte [] zero (suc m) d rest e = absurd (cc e)
take-drop-byte [] (suc start) (suc m) d rest e = absurd (cc e)
take-drop-byte (x ∷ xs) zero (suc m) d rest e = cc e
take-drop-byte (x ∷ xs) (suc start) (suc m) d rest e = take-drop-byte xs start (suc m) d rest e

slice-byte :
    (input : List ℕ) (start m d : ℕ) (rest : List ℕ)
    → slice input start m ≡ some (d ∷ rest)
    → byte_at {E = DepositError} input start ≡ ok d
unfolding slice
slice-byte input start m d rest e =
    let cut : take m (drop start input) ≡ d ∷ rest = ground arith in
    take-drop-byte input start m d rest cut

decode_amount-of_filled :
    (digits offset : ℕ) (rest : List ℕ) (amount : PostingCents)
    → length rest ≡ digits + 1
    → parse_cents (digits ∷ rest) ≡ ok amount
    → decode_amount (digits ∷ rest) offset ≡ ok amount
unfolding decode_amount
decode_amount-of_filled digits offset rest amount filled reads =
    let long : ltb (suc (length rest)) (digits + 2) ≡ false = ground arith in
    let short : ltb (digits + 2) (suc (length rest)) ≡ false = ground arith in
    rw long (rw short (rw reads))

-- The search meets every token.
pub tail_candidate-of_token :
    (input : List ℕ) (amount_end : ℕ) (amount : PostingCents) (t : IsToken input amount_end amount)
    → tail_candidate input amount_end t.digits ≡ ok (some amount)
unfolding tail_candidate bytes_of
tail_candidate-of_token input amount_end amount t =
    let d = t.digits in
    let room : ltb amount_end (d + 2) ≡ false = ground (arith, t.ends) in
    let place : amount_end - (d + 2) ≡ t.start = omega (arith, t.ends) in
    let counted : not (d == d) ≡ false = ground arith in
    rw (room, tail_candidate)
      (rw place (
        rw (slice-byte input t.start (d + 2) d t.rest t.stands) (
          rw counted (
            rw (t.stands, bytes_of)
              (rw (decode_amount-of_filled d t.start t.rest amount t.filled t.reads))))))

push_amount-empty :
    (o : Option PostingCents) (later : List PostingCents)
    → push_amount o later ≡ []
    → (o ≡ none) × (later ≡ [])
push_amount-empty none later e = (refl, e)
push_amount-empty (some c) later e = absurd (cc e)

push_amount-alone :
    (o : Option PostingCents) (later : List PostingCents) (a : PostingCents)
    → push_amount o later ≡ a ∷ []
    → ((o ≡ none) × (later ≡ a ∷ [])) ⊎ ((o ≡ some a) × (later ≡ []))
push_amount-alone none later a e = inl (refl, e)
push_amount-alone (some c) later a e = inr (cc e, cc e)

module _ (input : List ℕ) (amount_end : ℕ) where
  tail_candidates-ne-empty :
      (d : ℕ) (b : PostingCents)
      → tail_candidate input amount_end d ≡ ok (some b)
      → (counts : List ℕ) → tail_candidates input amount_end counts ≡ ok []
      → ¬ (Has d counts)
  unfolding tail_candidates
  tail_candidates-ne-empty d b found [] e h = h
  tail_candidates-ne-empty d b found (n ∷ more) e h =
      let (o, here, e1) = >>=-eq-ok (tail_candidate input amount_end n) _ e in
      let (later, rest, e2) = >>=-eq-ok (tail_candidates input amount_end more) _ e1 in
      let (nothing, no_more) = push_amount-empty o later (ok_injective e2) in
      elim h [
        | inl same ↦ cc (found, here, nothing, same)
        | inr behind ↦ tail_candidates-ne-empty d b found more (rest ∙ ap ok no_more) behind
      ]

  -- A digit count that is met is the head's, or among the rest.
  passed :
      (n : ℕ) (o : Option PostingCents) (more : List ℕ) (d : ℕ) (b : PostingCents)
      → tail_candidate input amount_end n ≡ ok o
      → o ≡ none
      → tail_candidate input amount_end d ≡ ok (some b)
      → Has d (n ∷ more)
      → Has d more
  passed n o more d b here nothing found (inl same) = cc (found, here, nothing, same)
  passed n o more d b here nothing found (inr behind) = behind

  at_head :
      (n : ℕ) (more : List ℕ) (d : ℕ) (b : PostingCents)
      → tail_candidate input amount_end d ≡ ok (some b)
      → tail_candidates input amount_end more ≡ ok []
      → Has d (n ∷ more)
      → d ≡ n
  at_head n more d b found none_later (inl same) = same
  at_head n more d b found none_later (inr behind) =
      absurd (tail_candidates-ne-empty d b found more none_later behind)

  -- Where the search has one result, all digit counts that are met are the same.
  pub tail_candidates-alone :
      (d : ℕ) (b : PostingCents) (d' : ℕ) (b' a : PostingCents)
      → tail_candidate input amount_end d ≡ ok (some b)
      → tail_candidate input amount_end d' ≡ ok (some b')
      → (counts : List ℕ) → tail_candidates input amount_end counts ≡ ok (a ∷ [])
      → Has d counts
      → Has d' counts
      → (d ≡ d') × (b ≡ a)
  unfolding tail_candidates
  tail_candidates-alone d b d' b' a found found' [] e h h' = absurd h
  tail_candidates-alone d b d' b' a found found' (n ∷ more) e h h' =
      let (o, here, e1) = >>=-eq-ok (tail_candidate input amount_end n) _ e in
      let (later, rest, e2) = >>=-eq-ok (tail_candidates input amount_end more) _ e1 in
      elim (push_amount-alone o later a (ok_injective e2)) [
        | inl (nothing, only_later) ↦
            tail_candidates-alone d b d' b' a found found' more (rest ∙ ap ok only_later)
              (passed n o more d b here nothing found h)
              (passed n o more d' b' here nothing found' h')
        | inr (one, no_more) ↦
            let same = at_head n more d b found (rest ∙ ap ok no_more) h in
            let same' = at_head n more d' b' found' (rest ∙ ap ok no_more) h' in
            (same ∙ sym same', cc (found, here, one, same))
      ]
