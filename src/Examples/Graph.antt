-- ===== src/Examples/Graph.antt =====
-- Column names matched with table names.
use openqbw.Base.{◌≡◌, ◌≤◌, ◌<◌, ◌⊎◌, refl, List, [], ◌∷◌, ◌++◌, All, none, some}
use openqbw.Base.Text.{Text, codes}
use openqbw.FkGraph.{match_score, pick_best, strip_id_suffix}
use openqbw.FkGraph.Best.{pick_best_first}

abbrev tables : List Text
tables = codes "customer_list" ∷ codes "abmc_Customer" ∷ codes "ix_customer" ∷ []

stem_found : strip_id_suffix (codes "customer_id_h") ≡ some (codes "customer")
unfolding strip_id_suffix
stem_found = refl

second_picked : pick_best (codes "customer") tables ≡ (some (codes "abmc_Customer"), 900)
unfolding pick_best
second_picked = refl

pick_best_first_example :
    ((pick_best (codes "customer") tables ≡ (none, 0))
      × All (λ t. match_score (codes "customer") t ≡ 0) tables)
    ⊎ ((before : List Text) × (t : Text) × (after : List Text) × (tables ≡ before ++ t ∷ after)
        × (pick_best (codes "customer") tables ≡ (some t, match_score (codes "customer") t))
        × (0 < match_score (codes "customer") t)
        × All (λ x. match_score (codes "customer") x < match_score (codes "customer") t) before
        × All (λ x. match_score (codes "customer") x ≤ match_score (codes "customer") t) after)
pick_best_first_example = pick_best_first (codes "customer") tables
