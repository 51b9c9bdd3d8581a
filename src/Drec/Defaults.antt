-- ===== src/Drec/Defaults.antt =====
-- `materialize_schema_defaults`: which fields the result has.
use openqbw.Base.{
  ℕ, zero, suc, ◌+◌, ◌≡◌, ◌≢◌, ◌<◌, refl, ◌∙◌, List, [], ◌∷◌, Option, none, some, arith, get_elem?,
  inl, inr, Bool-cases, Option-cases, if◌then◌else◌, ap,
}
use openqbw.Base.Order.{nat_ord}
use openqbw.Base.Map.{Map, get, insert, contains_key}
use openqbw.Base.Map.Laws.{get-insert}
use openqbw.Drec.{DrecDescriptor, DrecSchema, DrecField, DrecRecord}
use openqbw.Drec.Schema.{field}
use openqbw.Drec.Encode.{unplaced, add_defaults, materialize_schema_defaults}

-- The field of an ordinal: the one present, or else the default of the descriptor.
abbrev pub present_or_default : ℕ → Option DrecField → Option DrecDescriptor → Option DrecField
present_or_default ordinal (some f) d = some f
present_or_default ordinal none none = none
present_or_default ordinal none (some d) = elim d.default [
  | none ↦ none
  | some v ↦ some (unplaced ordinal v)
]

-- One round of the loop.
abbrev step : ℕ → DrecDescriptor → Map ℕ DrecField → Map ℕ DrecField
step i d m =
    if contains_key i m then m else elim d.default [ none ↦ m | some v ↦ insert i (unplaced i v) m ]

step_other :
    (i k : ℕ) (d : DrecDescriptor) (m : Map ℕ DrecField) → k ≢ i → get k (step i d m) ≡ get k m
step_other i k d m h = elim (Bool-cases (contains_key i m)) [
  | inl taken ↦ rw taken refl
  | inr free ↦ elim (Option-cases d.default) [
    | inl nothing ↦ rw free (rw nothing refl)
    | inr (v, default) ↦ rw free (rw default (get-insert i k (unplaced i v) m ∙ ground arith))
  ]
]

step_own :
    (i : ℕ) (d : DrecDescriptor) (m : Map ℕ DrecField)
    → get i (step i d m) ≡ present_or_default i (get i m) (some d)
step_own i d m = elim (Option-cases (get i m)) [
  | inr (f, taken) ↦ rw taken taken
  | inl free ↦ elim (Option-cases d.default) [
    | inl nothing ↦ rw free (rw nothing free)
    | inr (v, default) ↦ rw free (rw default (get-insert i i (unplaced i v) m ∙ ground arith))
  ]
]

get-add_defaults_below :
    (i k : ℕ) (ds : List DrecDescriptor) (m : Map ℕ DrecField)
    → k < i
    → get k (add_defaults i ds m) ≡ get k m
unfolding add_defaults
get-add_defaults_below i k [] m h = refl
get-add_defaults_below i k (d ∷ ds) m h =
    get-add_defaults_below (suc i) k ds (step i d m) (omega arith)
    ∙ step_other i k d m (omega arith)

present_or_default-none : (k : ℕ) (o : Option DrecField) → o ≡ present_or_default k o none
present_or_default-none k none = refl
present_or_default-none k (some f) = refl

get-add_defaults :
    (n i k : ℕ) (ds : List DrecDescriptor) (m : Map ℕ DrecField)
    → i + n ≡ k
    → get k (add_defaults i ds m) ≡ present_or_default k (get k m) (get_elem? ds n)
unfolding add_defaults
get-add_defaults n i k [] m h = present_or_default-none k (get k m)
get-add_defaults zero i k (d ∷ ds) m h =
    let same : k ≡ i = omega arith in
    rw same (get-add_defaults_below (suc i) i ds (step i d m) (omega arith) ∙ step_own i d m)
get-add_defaults (suc n) i k (d ∷ ds) m h =
    get-add_defaults n (suc i) k ds (step i d m) (omega arith)
    ∙ ap (λ (o : Option DrecField). present_or_default k o (get_elem? ds n))
        (step_other i k d m (λ same. absurd (omega arith)))

-- After the defaults are materialized, every ordinal has the field that the record had; where it had
-- none, it has the default of the schema's descriptor, and no field when there is no default.
pub get-materialize_schema_defaults :
    (r : DrecRecord) (schema : DrecSchema) (ordinal : ℕ)
    → get ordinal (materialize_schema_defaults r schema).fields
      ≡ present_or_default ordinal (get ordinal r.fields) (field schema ordinal)
unfolding materialize_schema_defaults
get-materialize_schema_defaults r schema ordinal =
    get-add_defaults ordinal 0 ordinal schema.fields r.fields (omega arith)
