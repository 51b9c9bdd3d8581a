-- ===== src/Base/Text/Strings/Trimmed.antt =====
-- Texts without white space: trimming leaves them.
use openqbw.Base.{◌≡◌, refl, false, [], ◌∷◌, All}
use openqbw.Base.Text.{Text, is_whitespace}
use openqbw.Base.Text.Strings.{trim, trim_start, trim_end}

trim_end-solid : (s : Text) → All (λ c. is_whitespace c ≡ false) s → trim_end s ≡ s
unfolding trim_end
trim_end-solid [] h = refl
trim_end-solid (c ∷ []) h = rw h.0
trim_end-solid (c ∷ d ∷ s) h = rw (trim_end-solid (d ∷ s) h.1)

pub trim-solid : (s : Text) → All (λ c. is_whitespace c ≡ false) s → trim s ≡ s
unfolding trim trim_start
trim-solid [] h = refl
trim-solid (c ∷ s) h = rw h.0 (trim_end-solid (c ∷ s) h)
