-- ===== src/Drec/Schema.antt =====
-- `DrecClass::from_tag` and `tag`, and the validated descriptor arrays of `DrecSchema::new`.
use openqbw.Base.{
  ℕ, ◌↔◌, arith, suc, ◌≡◌, Bool, true, false, not, ◌||◌, List, [], ◌∷◌, Option, none, some, ok, err,
  ◌>>◌, length, get_elem?, ltb, ◌==◌, is_some, if◌then◌else◌,
}
use openqbw.Drec.{
  u16_max, DrecClass, DrecValue, DrecDescriptor, DrecSchema, Drec, unknown_class,
  early_descriptor_terminator, pointer_sized_field_unsupported, schema_too_large,
  missing_descriptor_terminator, invalid_end_descriptor, invalid_descriptor_length,
  ensure_value_matches,
}

-- `DrecClass::from_tag`
unfoldable pub class_from_tag : ℕ → Drec DrecClass
class_from_tag tag =
    if tag == b'E'
    then ok DrecClass.end
    else if tag == b'S'
    then ok DrecClass.string
    else if tag == b'B'
    then ok DrecClass.bytes
    else if tag == b'F'
    then ok DrecClass.f
    else if tag == b'I'
    then ok DrecClass.i
    else if tag == b'L'
    then ok DrecClass.l
    else if tag == b'H'
    then ok DrecClass.h
    else if tag == b'U'
    then ok DrecClass.u
    else if tag == b'M'
    then ok DrecClass.legacy_balance
    else if tag == b'Z'
    then ok DrecClass.z
    else if tag == b'D'
    then ok DrecClass.pointer_sized_d
    else err (unknown_class tag)

-- `DrecClass::tag`
unfoldable pub class_tag : DrecClass → ℕ
class_tag DrecClass.end = b'E'
class_tag DrecClass.string = b'S'
class_tag DrecClass.bytes = b'B'
class_tag DrecClass.f = b'F'
class_tag DrecClass.i = b'I'
class_tag DrecClass.l = b'L'
class_tag DrecClass.h = b'H'
class_tag DrecClass.u = b'U'
class_tag DrecClass.legacy_balance = b'M'
class_tag DrecClass.z = b'Z'
class_tag DrecClass.pointer_sized_d = b'D'

-- The tags and the classes correspond one to one.
pub class_from_tag-iff-class_tag :
    (n : ℕ) (c : DrecClass) → (class_from_tag n ≡ ok c) ↔ (class_tag c ≡ n)
unfolding class_from_tag class_tag
class_from_tag-iff-class_tag n c = (λ h. ground arith, λ h. ground arith)

-- `DrecDescriptor::new`, `with_default` and `end`
unfoldable pub new_descriptor : DrecClass → ℕ → DrecDescriptor
new_descriptor kind len = record { kind = kind; length = len; default = none }

unfoldable pub with_default : DrecDescriptor → DrecValue → DrecDescriptor
with_default d v = record d { default = some v }

unfoldable pub end_descriptor : DrecDescriptor
unfolding new_descriptor
end_descriptor = new_descriptor DrecClass.end 0

-- The lengths that a class admits.
unfoldable pub valid_length : DrecClass → ℕ → Bool
valid_length DrecClass.string len = ltb 0 len
valid_length DrecClass.bytes len = true
valid_length DrecClass.f len = len == 4
valid_length DrecClass.i len = len == 4
valid_length DrecClass.l len = len == 4
valid_length DrecClass.h len = len == 2
valid_length DrecClass.u len = len == 2
valid_length DrecClass.legacy_balance len = len == 6
valid_length DrecClass.z len = len == 9
valid_length DrecClass.end len = false
valid_length DrecClass.pointer_sized_d len = false

abbrev pub is_end : DrecClass → Bool
is_end DrecClass.end = true
is_end _ = false

abbrev pub is_pointer_sized : DrecClass → Bool
is_pointer_sized DrecClass.pointer_sized_d = true
is_pointer_sized _ = false

unfoldable pub validate_descriptor : ℕ → DrecDescriptor → Drec (Unit {0})
unfolding valid_length ensure_value_matches
validate_descriptor ordinal d =
    if is_end d.kind
    then err (early_descriptor_terminator ordinal)
    else if is_pointer_sized d.kind
    then err (pointer_sized_field_unsupported ordinal)
    else if not (valid_length d.kind d.length)
    then err (invalid_descriptor_length ordinal d.kind d.length)
    else elim d.default [ none ↦ ok tt | some v ↦ ensure_value_matches d v ]

-- The loop over the enumerated descriptors.
unfoldable pub validate_descriptors : ℕ → List DrecDescriptor → Drec (Unit {0})
unfolding validate_descriptor
validate_descriptors ordinal [] = ok tt
validate_descriptors ordinal (d ∷ rest) =
    validate_descriptor ordinal d >> validate_descriptors (suc ordinal) rest

-- `Vec::pop`
abbrev pub pop {ℓ} : {A : Type ℓ} → List A → Option (List A × A)
pop [] = none
pop (x ∷ xs) = elim (pop xs) [ none ↦ some ([], x) | some (ys, y) ↦ some (x ∷ ys, y) ]

-- `DrecSchema::new`
unfoldable pub new_schema : List DrecDescriptor → Drec DrecSchema
unfolding validate_descriptors
new_schema descriptors = elim (pop descriptors) [
  | none ↦ err missing_descriptor_terminator
  | some (fields, last) ↦
      if not (is_end last.kind)
      then err missing_descriptor_terminator
      else if not (last.length == 0) || is_some last.default
      then err invalid_end_descriptor
      else if ltb u16_max (length fields)
      then err (schema_too_large (length fields))
      else validate_descriptors 0 fields >> ok (record { fields = fields })
]

-- `DrecSchema::field` and `field_count`
abbrev pub field : DrecSchema → ℕ → Option DrecDescriptor
field schema ordinal = get_elem? schema.fields ordinal

abbrev pub field_count : DrecSchema → ℕ
field_count schema = length schema.fields
