-- ===== src/Drec/Places.antt =====
-- The places of the fields of a record, and the order of their ordinals.
use openqbw.Base.{
  ℕ, suc, ◌+◌, ◌≡◌, ◌≤◌, ◌<◌, refl, [], ◌∷◌, ◌++◌, Option, none, some, arith, All, false,
}
use openqbw.Base.Order.{nat_ord}
use openqbw.Base.Map.{Map, get, insert, contains_key}
use openqbw.Drec.{DrecValue, DrecField}
use openqbw.Drec.Parse.{not_after}
use openqbw.Drec.Encode.{value_encoded_len}

-- The fields of a record as they come to stand in its bytes, from the cursor on.
abbrev pub placed_field : ℕ → ℕ → DrecValue → DrecField
placed_field c ordinal v = record {
  ordinal = ordinal;
  value = v;
  byte_range = record { start = c; stop = c + 2 + value_encoded_len v };
  payload_range = record { start = c + 2; stop = c + 2 + value_encoded_len v };
}

unfoldable pub placed : ℕ → Map ℕ DrecField → Map ℕ DrecField
placed c [] = []
placed c ((k, f) ∷ rest) =
    (k, placed_field c k f.value) ∷ placed (c + 2 + value_encoded_len f.value) rest

-- The ordinals increase from `lo` on.
abbrev pub Increasing : ℕ → Map ℕ DrecField → Type 0
Increasing lo [] = Unit
Increasing lo ((k, f) ∷ rest) = (lo ≤ k) × Increasing (suc k) rest

-- The ordinals read so far are below `lo`.
abbrev pub Under : ℕ → Map ℕ DrecField → Type 0
Under lo m = All (λ e. e.0 < lo) m

abbrev pub first_allowed : Option ℕ → ℕ
first_allowed none = 0
first_allowed (some p) = suc p

pub not_after-none :
    (previous : Option ℕ) (k : ℕ) → first_allowed previous ≤ k → not_after previous k ≡ none
not_after-none none k h = refl
not_after-none (some p) k h = ground arith

pub contains_Under :
    (lo k : ℕ) (m : Map ℕ DrecField) → Under lo m → lo ≤ k → contains_key k m ≡ false
unfolding get
contains_Under lo k [] u h = refl
contains_Under lo k ((j, f) ∷ m) u h = ground (arith, contains_Under lo k m u.1)

pub insert-Under :
    (lo k : ℕ) (f : DrecField) (m : Map ℕ DrecField)
    → Under lo m
    → lo ≤ k
    → insert k f m ≡ m ++ (k, f) ∷ []
unfolding insert
insert-Under lo k f [] u h = refl
insert-Under lo k f ((j, g) ∷ m) u h = ground (arith, insert-Under lo k f m u.1)

pub Under-snoc :
    (lo k : ℕ) (f : DrecField) (m : Map ℕ DrecField)
    → Under lo m
    → lo ≤ k
    → Under (suc k) (m ++ (k, f) ∷ [])
Under-snoc lo k f [] u h = (omega arith, tt)
Under-snoc lo k f ((j, g) ∷ m) u h = (omega arith, Under-snoc lo k f m u.1 h)
