-- ===== src/Base/Text.antt =====
-- A Rust `String` as the list of its Unicode scalar values. Their lexicographic order is that of
-- the UTF-8 bytes, which Rust compares.
pub mod Strings
pub mod Decimal
use openqbw.Base.{ℕ, ◌≡◌, refl, arith, List, [], ◌∷◌, Bool, true, ◌&&◌, ◌||◌, leb, ◌==◌}
use openqbw.Base.Order.{Ord, IsLawful, then_cmp}
use Prim.Native.Nat.{compare, Ordering}
use Prim.Native.Nat.Ordering.{lt, eq, gt}
use Prim.Native.Char.{code}
use Prim.Native.String.{String}

abbrev pub Text : Type 0
Text = List ℕ

-- The scalar values of a literal.
abbrev pub codes : String → Text
codes String.[] = []
codes (String.◌∷◌ c s) = code c ∷ codes s

-- `char::is_whitespace`, the Unicode property White_Space
unfoldable pub is_whitespace : ℕ → Bool
is_whitespace c =
    leb 9 c && leb c 13
    || c == 32
    || c == 0x85
    || c == 0xa0
    || c == 0x1680
    || leb 0x2000 c && leb c 0x200a
    || c == 0x2028
    || c == 0x2029
    || c == 0x202f
    || c == 0x205f
    || c == 0x3000

-- `s.trim().is_empty()`
unfoldable pub is_blank : Text → Bool
unfolding is_whitespace
is_blank [] = true
is_blank (c ∷ s) = is_whitespace c && is_blank s

abbrev pub compare_text : Text → Text → Ordering
compare_text [] [] = eq
compare_text [] (b ∷ t) = lt
compare_text (a ∷ s) [] = gt
compare_text (a ∷ s) (b ∷ t) = then_cmp (compare a b) (compare_text s t)

refl_text : (s : Text) → compare_text s s ≡ eq
refl_text [] = refl
refl_text (a ∷ s) = ground (arith, refl_text s)

eq_of_text : (s t : Text) → compare_text s t ≡ eq → s ≡ t
eq_of_text [] [] h = refl
eq_of_text [] (b ∷ t) h = cc
eq_of_text (a ∷ s) [] h = cc
eq_of_text (a ∷ s) (b ∷ t) h = ground (arith, eq_of_text s t)

lt_of_gt_text : (s t : Text) → compare_text s t ≡ gt → compare_text t s ≡ lt
lt_of_gt_text [] [] h = cc
lt_of_gt_text [] (b ∷ t) h = cc
lt_of_gt_text (a ∷ s) [] h = refl
lt_of_gt_text (a ∷ s) (b ∷ t) h = ground (arith, lt_of_gt_text s t)

gt_of_lt_text : (s t : Text) → compare_text s t ≡ lt → compare_text t s ≡ gt
gt_of_lt_text [] [] h = cc
gt_of_lt_text [] (b ∷ t) h = refl
gt_of_lt_text (a ∷ s) [] h = cc
gt_of_lt_text (a ∷ s) (b ∷ t) h = ground (arith, gt_of_lt_text s t)

lt_trans_text :
    (s t u : Text) → compare_text s t ≡ lt → compare_text t u ≡ lt → compare_text s u ≡ lt
lt_trans_text [] t [] h k =
    elim t as (λ t. compare_text [] t ≡ lt → compare_text t [] ≡ lt → eq ≡ lt) [
      | [] ↦ λ h k. h
      | b ∷ t ↦ λ h k. cc
    ]
      h k
lt_trans_text [] t (c ∷ u) h k = refl
lt_trans_text (a ∷ s) [] u h k = cc
lt_trans_text (a ∷ s) (b ∷ t) [] h k = cc
lt_trans_text (a ∷ s) (b ∷ t) (c ∷ u) h k = ground (arith, lt_trans_text s t u)

pub text-IsLawful : IsLawful compare_text
text-IsLawful = record {
  cmp_refl = refl_text;
  eq_of_cmp = eq_of_text;
  lt_of_gt = lt_of_gt_text;
  gt_of_lt = gt_of_lt_text;
  lt_trans = lt_trans_text;
}

instance abbrev pub text_ord : Ord Text
text_ord = record { cmp = compare_text; lawful = text-IsLawful }
