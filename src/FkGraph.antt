-- ===== src/FkGraph.antt =====
-- crates/openqbw/src/fkgraph.rs: the scores by which a column's name is matched with a table's.
pub mod Best
use openqbw.Base.{
  ℕ, ◌+◌, Bool, true, false, ◌&&◌, ◌||◌, List, [], ◌∷◌, ◌++◌, map, Option, none, some, is_some,
  length, leb, ltb, ◌==◌, if◌then◌else◌,
}
use openqbw.Base.Text.{Text, codes, text_ord}
use openqbw.Base.Order.{◌=?◌}

pub record FkEdge : Type 0 where
  pub source_table : Text
  pub source_column : Text
  pub source_column_id : ℕ
  pub stem : Text
  pub target_table : Option Text
  pub score : ℕ

-- `to_ascii_lowercase`
unfoldable pub lower : Text → Text
lower [] = []
lower (c ∷ s) = (if leb 65 c && leb c 90 then c + 32 else c) ∷ lower s

-- `str::strip_prefix`, `strip_suffix`, `ends_with`, `starts_with` and `contains`
unfoldable pub strip_prefix : Text → Text → Option Text
strip_prefix [] s = some s
strip_prefix (p ∷ ps) [] = none
strip_prefix (p ∷ ps) (c ∷ s) = if p == c then strip_prefix ps s else none

unfoldable pub strip_suffix : Text → Text → Option Text
strip_suffix suffix [] = if suffix =? [] then some [] else none
strip_suffix suffix (c ∷ s) =
    let later = strip_suffix suffix s in
    if suffix =? (c ∷ s)
    then some []
    else elim later [ none ↦ none | some before ↦ some (c ∷ before) ]

unfoldable pub contains_text : Text → Text → Bool
unfolding strip_prefix
contains_text needle [] = is_some (strip_prefix needle [])
contains_text needle (c ∷ s) = is_some (strip_prefix needle (c ∷ s)) || contains_text needle s

-- `Option::or_else`
abbrev pub or_else : Option Text → Option Text → Option Text
or_else (some s) other = some s
or_else none other = other

unfoldable pub strip_id_suffix : Text → Option Text
unfolding strip_suffix
strip_id_suffix name = or_else (strip_suffix (codes "_id_h") name) (strip_suffix (codes "_id") name)

-- The table's name without the prefix that SQL Anywhere puts before it.
unfoldable pub stripped_table : Text → Text
unfolding strip_prefix
stripped_table table =
    elim (or_else (strip_prefix (codes "abmc_") table) (
      or_else (strip_prefix (codes "es_") table) (
        or_else (strip_prefix (codes "i_") table) (
          or_else (strip_prefix (codes "v_") table)
            (or_else (strip_prefix (codes "mv_") table) (strip_prefix (codes "ix_") table)))))) [
              | none ↦ table
              | some rest ↦ rest
            ]

unfoldable pub match_score : Text → Text → ℕ
unfolding lower stripped_table strip_prefix strip_suffix contains_text
match_score stem table =
    let stem_l = lower stem in
    let table_l = lower table in
    let stripped = stripped_table table_l in
    if table_l =? stem_l
    then 1000
    else if stripped =? stem_l
    then 900
    else if is_some (strip_suffix (codes "_" ++ stem_l) stripped)
    then 700
    else if is_some (strip_prefix (stem_l ++ codes "_") stripped)
    then 600
    else if contains_text stem_l stripped
    then 300
    else 0

-- The loop of `pick_best`, for any score.
unfoldable pub pick_loop : (Text → ℕ) → Option Text → ℕ → List Text → Option Text × ℕ
pick_loop f best score [] = (best, score)
pick_loop f best score (t ∷ ts) =
    if ltb score (f t) then pick_loop f (some t) (f t) ts else pick_loop f best score ts

unfoldable pub pick_best : Text → List Text → Option Text × ℕ
unfolding pick_loop match_score
pick_best stem tables =
    let found = pick_loop (match_score stem) none 0 tables in
    if found.1 == 0 then (none, 0) else found

pub record FkGraphStats : Type 0 where
  pub edges : ℕ
  pub resolved : ℕ
  pub strong : ℕ

unfoldable pub count_edges : (FkEdge → Bool) → List FkEdge → ℕ
count_edges test [] = 0
count_edges test (e ∷ es) = if test e then count_edges test es + 1 else count_edges test es

unfoldable pub stats : List FkEdge → FkGraphStats
unfolding count_edges
stats edges = record {
  edges = length edges;
  resolved = count_edges (λ e. is_some e.target_table) edges;
  strong = count_edges (λ e. leb 900 e.score) edges;
}
