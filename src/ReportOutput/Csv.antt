-- ===== src/ReportOutput/Csv.antt =====
-- `csv_row` and `csv_field`: the writer of CSV records.
pub mod RoundTrip
use openqbw.Base.{ℕ, Bool, ◌||◌, List, [], ◌∷◌, ◌++◌, Option, none, some, ◌==◌, if◌then◌else◌}
use openqbw.Base.Text.{Text}
use openqbw.Base.Text.Strings.{any}

-- A character for which the field is quoted.
abbrev pub is_special : ℕ → Bool
is_special c = c == 44 || (c == 34 || (c == 13 || c == 10))

-- `value.replace('"', "\"\"")`
unfoldable pub double_quotes : Text → Text
double_quotes [] = []
double_quotes (c ∷ s) = let rest = double_quotes s in if c == 34 then 34 ∷ 34 ∷ rest else c ∷ rest

-- What `csv_field` appends to `out`.
unfoldable pub csv_field : Text → Text
unfolding double_quotes
csv_field value = if any is_special value then 34 ∷ (double_quotes value ++ 34 ∷ []) else value

abbrev pub optional_field : Option Text → Text
unfolding csv_field
optional_field none = []
optional_field (some value) = csv_field value

unfoldable pub csv_fields : List (Option Text) → Text
unfolding csv_field
csv_fields [] = []
csv_fields (value ∷ []) = optional_field value
csv_fields (value ∷ next ∷ rest) = optional_field value ++ 44 ∷ csv_fields (next ∷ rest)

-- What `csv_row` appends to `out`.
unfoldable pub csv_row : List (Option Text) → Text
unfolding csv_fields
csv_row fields = csv_fields fields ++ 10 ∷ []
