-- ===== src/Reconcile/Compare/Match.antt =====
-- No account differs exactly when the maps of balances are equal.
use openqbw.Base.{
  ◌≡◌, ◌↔◌, refl, sym, ◌∙◌, true, false, List, [], ◌∷◌, ◌++◌, some, All, All-map, arith, inl, inr,
  is_some, Option-cases, is_some,
}
use openqbw.Base.Int.{ℤ, neg, eq_ℤ_iff, ◌-ℤ◌}
use openqbw.Base.Map.{Map, get}
use openqbw.Base.Map.Laws.{IsSorted}
use openqbw.Base.Map.Ext.{All-get, get-All, Map-ext}
use openqbw.Base.Text.{Text, text_ord}
use openqbw.Base.Text.Strings.{list_is_empty}
use openqbw.Reconcile.Compare.{
  TrialBalance, Variances, no_variances, variance_of, compare_some, compare_reference,
  compare_actual, each_entry, compare_accounts, no_account_differs,
}

list_is_empty-append : {A : Type 0} (xs : List A) (x : A) → list_is_empty (xs ++ x ∷ []) ≡ false
list_is_empty-append [] x = refl
list_is_empty-append (y ∷ xs) x = refl

abbrev pub IsClean : Variances → Type 0
IsClean v = no_account_differs v ≡ true

compare_some-IsClean :
    (s : Variances) (account : Text) (balance found : ℤ)
    → IsClean (compare_some s account balance found) ↔ (IsClean s × (found ≡ balance))
unfolding compare_some
compare_some-IsClean s account balance found = (
  λ h. ground (
    arith,
    (eq_ℤ_iff found balance).0,
    list_is_empty-append s.mismatched_accounts (variance_of account (found -ℤ balance)),
  ),
  λ h. rw ((eq_ℤ_iff found balance).1 h.1) h.0,
)

compare_reference-IsClean :
    (actual : Map Text ℤ) (s : Variances) (account : Text) (balance : ℤ)
    → IsClean (compare_reference actual s account balance)
      ↔ (IsClean s × (get account actual ≡ some balance))
unfolding compare_reference
compare_reference-IsClean actual s account balance = elim (Option-cases (get account actual)) [
  | inl e ↦
      rw (e, compare_reference)
        (
          λ h. cc (h, list_is_empty-append s.missing_accounts (variance_of account (neg balance))),
          λ h. cc (h.1),
        )
  | inr (found, e) ↦
      rw (e, compare_reference)
        (
          λ h.
              let (before, same) = (compare_some-IsClean s account balance found).0 h in
              (before, rw same),
          λ h. (compare_some-IsClean s account balance found).1 (h.0, cc (h.1)),
        )
]

compare_actual-IsClean :
    (reference : Map Text ℤ) (s : Variances) (account : Text) (balance : ℤ)
    → IsClean (compare_actual reference s account balance)
      ↔ (IsClean s × (is_some (get account reference) ≡ true))
unfolding compare_actual
compare_actual-IsClean reference s account balance =
    ground (arith, list_is_empty-append s.extra_accounts (variance_of account balance))

-- A loop over entries ends clean if it began so and each round keeps it so.
each_entry-IsClean :
    (body : Variances → Text → ℤ → Variances) (P : Text → ℤ → Type 0)
    → ((s : Variances) (account : Text) (balance : ℤ)
        → IsClean (body s account balance) ↔ (IsClean s × P account balance))
    → (s : Variances) (m : Map Text ℤ)
    → IsClean (each_entry body s m) ↔ (IsClean s × All (λ (e : Text × ℤ). P e.0 e.1) m)
unfolding each_entry
each_entry-IsClean body P step s [] = (λ h. (h, tt), λ h. h.0)
each_entry-IsClean body P step s ((account, balance) ∷ m) = (
  λ h.
      let (mid, rest) = (each_entry-IsClean body P step (body s account balance) m).0 h in
      let (before, here) = (step s account balance).0 mid in (before, (here, rest)),
  λ h.
      (each_entry-IsClean body P step (body s account balance) m).1
        ((step s account balance).1 (h.0, h.1.0), h.1.1),
)

-- The two loops together.
compare_accounts-IsClean :
    (reference actual : TrialBalance)
    → IsClean (compare_accounts reference actual) ↔ (
        All (λ (e : Text × ℤ). get e.0 actual.balances_cents ≡ some e.1) reference.balances_cents
        × All
            (λ (e : Text × ℤ). is_some (get e.0 reference.balances_cents) ≡ true)
            actual.balances_cents)
unfolding compare_accounts
compare_accounts-IsClean reference actual =
    let in_actual =
      each_entry-IsClean (compare_reference actual.balances_cents)
        (λ account balance. get account actual.balances_cents ≡ some balance)
        (compare_reference-IsClean actual.balances_cents) no_variances reference.balances_cents in
    let in_reference =
      each_entry-IsClean (compare_actual reference.balances_cents)
        (λ account balance. is_some (get account reference.balances_cents) ≡ true)
        (compare_actual-IsClean reference.balances_cents)
        (each_entry (compare_reference actual.balances_cents) no_variances reference.balances_cents)
        actual.balances_cents in
    (
      λ h.
          let (first, extra) = in_reference.0 h in
          let (_, found) = in_actual.0 first in (found, extra),
      λ h. in_reference.1 (in_actual.1 (refl, h.0), h.1),
    )

-- Two sorted maps, each entry of the first found in the second and each key of the second in the
-- first.
same_entries :
    (m n : Map Text ℤ)
    → IsSorted m
    → IsSorted n
    → All (λ (e : Text × ℤ). get e.0 n ≡ some e.1) m
    → All (λ (e : Text × ℤ). is_some (get e.0 m) ≡ true) n
    → m ≡ n
same_entries m n s t h k = Map-ext m n s t λ key. elim (Option-cases (get key m)) [
  | inr (v, e) ↦ e ∙ sym (get-All (λ i w. get i n ≡ some w) key v m h e)
  | inl e ↦ elim (Option-cases (get key n)) [
    | inl f ↦ e ∙ sym f
    | inr (w, f) ↦ cc (e, get-All (λ i w. is_some (get i m) ≡ true) key w n k f)
  ]
]

entries_of_eq :
    (m n : Map Text ℤ)
    → IsSorted m
    → m ≡ n
    → All (λ (e : Text × ℤ). get e.0 n ≡ some e.1) m
      × All (λ (e : Text × ℤ). is_some (get e.0 m) ≡ true) n
entries_of_eq m n s e =
    let here = All-get m s in
    rw (← e) (
      here,
      All-map (λ (i : Text × ℤ). get i.0 m ≡ some i.1)
          (λ (i : Text × ℤ). is_some (get i.0 m) ≡ true) (λ i p. rw p) m here,
    )

-- No account differs exactly when the two maps are equal.
pub compare_accounts_iff :
    (reference actual : TrialBalance)
    → IsSorted reference.balances_cents
    → IsSorted actual.balances_cents
    → IsClean (compare_accounts reference actual)
      ↔ (reference.balances_cents ≡ actual.balances_cents)
compare_accounts_iff reference actual s t = (
  λ h.
      let (found, known) = (compare_accounts-IsClean reference actual).0 h in
      same_entries reference.balances_cents actual.balances_cents s t found known,
  λ e.
      (compare_accounts-IsClean reference actual).1
        (entries_of_eq reference.balances_cents actual.balances_cents s e),
)
