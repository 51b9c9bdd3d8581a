-- ===== src/Base/Text/Strings.antt =====
-- The methods of `str` that the readers of reports use.
pub mod Trimmed
use openqbw.Base.{
  ℕ, suc, ◌≡◌, refl, List, [], ◌∷◌, Bool, true, false, not, ◌&&◌, ◌||◌, Option, none, some, ◌+◌,
  leb, ◌==◌, if◌then◌else◌,
}
use openqbw.Base.Text.{Text, is_whitespace}

unfoldable pub trim_start : Text → Text
unfolding is_whitespace
trim_start [] = []
trim_start (c ∷ s) = let rest = trim_start s in if is_whitespace c then rest else c ∷ s

unfoldable pub trim_end : Text → Text
unfolding is_whitespace
trim_end [] = []
trim_end (c ∷ s) = elim (trim_end s) [
  | [] ↦ if is_whitespace c then [] else c ∷ []
  | d ∷ r ↦ c ∷ d ∷ r
]

unfoldable pub trim : Text → Text
unfolding trim_start trim_end
trim s = trim_end (trim_start s)

unfoldable pub to_ascii_lowercase : Text → Text
to_ascii_lowercase [] = []
to_ascii_lowercase (c ∷ s) = (if leb 65 c && leb c 90 then c + 32 else c) ∷ to_ascii_lowercase s

-- `str::strip_prefix`; `starts_with` is its success.
unfoldable pub strip_prefix : Text → Text → Option Text
strip_prefix [] s = some s
strip_prefix (p ∷ ps) [] = none
strip_prefix (p ∷ ps) (c ∷ s) = if p == c then strip_prefix ps s else none

-- `s.split_once(c)` at a character: the text before and after its first occurrence.
unfoldable pub split_once : ℕ → Text → Option (Text × Text)
split_once c [] = none
split_once c (d ∷ s) =
    let later = split_once c s in
    if d == c
    then some ([], s)
    else elim later [ none ↦ none | some (before, after) ↦ some (d ∷ before, after) ]

-- `s.chars().last()` and `s.chars().next()`
abbrev pub last : Text → Option ℕ
last [] = none
last (c ∷ []) = some c
last (c ∷ d ∷ s) = last (d ∷ s)

abbrev pub first : Text → Option ℕ
first [] = none
first (c ∷ s) = some c

-- `s.ends_with(c)` and `s.starts_with(c)` at a character
abbrev pub is_char : ℕ → Option ℕ → Bool
is_char c none = false
is_char c (some d) = d == c

-- What `pop` leaves.
abbrev pub without_last : Text → Text
without_last [] = []
without_last (c ∷ []) = []
without_last (c ∷ d ∷ s) = c ∷ without_last (d ∷ s)

abbrev pub list_is_empty {ℓ} : {A : Type ℓ} → List A → Bool
list_is_empty [] = true
list_is_empty (x ∷ xs) = false

abbrev pub is_ascii_digit : ℕ → Bool
is_ascii_digit c = leb 48 c && leb c 57

-- `iter().all(p)` and `iter().any(p)`
abbrev pub all {ℓ} : {A : Type ℓ} → (A → Bool) → List A → Bool
all p [] = true
all p (x ∷ xs) = p x && all p xs

abbrev pub any {ℓ} : {A : Type ℓ} → (A → Bool) → List A → Bool
any p [] = false
any p (x ∷ xs) = p x || any p xs

abbrev pub unwrap_or {ℓ} : {A : Type ℓ} → A → Option A → A
unwrap_or default none = default
unwrap_or default (some a) = a
