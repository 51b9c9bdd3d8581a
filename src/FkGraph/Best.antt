-- ===== src/FkGraph/Best.antt =====
-- `pick_best` picks the first table of the highest score.
use openqbw.Base.{
  All-map, ℕ, ◌≡◌, ◌≤◌, ◌<◌, ◌⊎◌, inl, inr, refl, ap, false, List, [], ◌∷◌, ◌++◌, All, Option, none,
  some, ltb, ◌==◌, arith, Bool-cases,
}
use openqbw.Base.Text.{Text}
use openqbw.FkGraph.{match_score, pick_loop, pick_best}

module _ (f : Text → ℕ) where
  -- What the loop has found among the tables, from a best table and score before them.
  data Found (best : Option Text) (score : ℕ) (ts : List Text) (r : Option Text × ℕ) : Type 0 where
    kept : r ≡ (best, score) → All (λ t. f t ≤ score) ts → Found best score ts r
    improved :
        (before : List Text) (t : Text) (after : List Text)
        → ts ≡ before ++ t ∷ after
        → r ≡ (some t, f t)
        → score < f t
        → All (λ x. f x < f t) before
        → All (λ x. f x ≤ f t) after
        → Found best score ts r

  pick_loop-Found :
      (best : Option Text) (score : ℕ) (ts : List Text)
      → Found best score ts (pick_loop f best score ts)
  unfolding pick_loop
  pick_loop-Found best score [] = kept refl tt
  pick_loop-Found best score (t ∷ ts) = elim (Bool-cases (ltb score (f t))) [
    | inl better ↦
        let above : score < f t = ground arith in
        rw (better, pick_loop)
          (elim (pick_loop-Found (some t) (f t) ts) [
            | kept same below ↦ improved [] t ts refl same above tt below
            | improved before u after split same beyond low high ↦
                improved (t ∷ before) u after (ap (λ (m : List Text). t ∷ m) split) same
                  (omega (arith, above, beyond)) (beyond, low) high
          ])
    | inr worse ↦
        let under : f t ≤ score = ground arith in
        rw (worse, pick_loop)
          (elim (pick_loop-Found best score ts) [
            | kept same below ↦ kept same (under, below)
            | improved before u after split same beyond low high ↦
                improved (t ∷ before) u after (ap (λ (m : List Text). t ∷ m) split) same beyond
                  (omega (arith, under, beyond), low) high
          ])
  ]

not_zero : (n : ℕ) → 0 < n → (n == 0) ≡ false
not_zero n h = ground arith

-- Either every table scores zero and none is picked, with score zero; or the first of the tables with
-- the highest score, which is above zero, is picked with that score.
pub pick_best_first :
    (stem : Text) (tables : List Text)
    → ((pick_best stem tables ≡ (none, 0)) × All (λ t. match_score stem t ≡ 0) tables)
      ⊎ ((before : List Text) × (t : Text) × (after : List Text) × (tables ≡ before ++ t ∷ after)
          × (pick_best stem tables ≡ (some t, match_score stem t))
          × (0 < match_score stem t)
          × All (λ x. match_score stem x < match_score stem t) before
          × All (λ x. match_score stem x ≤ match_score stem t) after)
unfolding pick_best
pick_best_first stem tables = elim (pick_loop-Found (match_score stem) none 0 tables) [
  | kept same below ↦ inl (
    rw same refl,
    All-map (λ t. match_score stem t ≤ 0) (λ t. match_score stem t ≡ 0) (λ t h. omega arith) tables
        below,
  )
  | improved before t after split same above low high ↦
      let found : (match_score stem t == 0) ≡ false = not_zero (match_score stem t) above in
      inr (before, t, after, split, rw same (rw found refl), above, low, high)
]
