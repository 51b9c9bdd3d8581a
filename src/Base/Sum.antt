-- ===== src/Base/Sum.antt =====
-- Sums over a list: `iter().map(f).sum()`.
use openqbw.Base.{◌≡◌, refl, List, [], ◌∷◌, ◌++◌, map, All}
use openqbw.Base.Int.{ℤ, pos, ◌+ℤ◌, int_laws}

module _ {ℓ} {A : Type ℓ} where
  unfoldable pub sum_of : (A → ℤ) → List A → ℤ
  sum_of f [] = pos 0
  sum_of f (x ∷ xs) = f x +ℤ sum_of f xs

  pub sum_of-append :
      (f : A → ℤ) (xs ys : List A) → sum_of f (xs ++ ys) ≡ sum_of f xs +ℤ sum_of f ys
  unfolding sum_of
  sum_of-append f [] ys = omega int_laws
  sum_of-append f (x ∷ xs) ys = rw (sum_of-append f xs ys) (omega int_laws)

  pub sum_of-add :
      (f g : A → ℤ) (xs : List A) → sum_of (λ x. f x +ℤ g x) xs ≡ sum_of f xs +ℤ sum_of g xs
  unfolding sum_of
  sum_of-add f g [] = omega int_laws
  sum_of-add f g (x ∷ xs) = rw (sum_of-add f g xs) (omega int_laws)

  pub sum_of-zero : (xs : List A) → sum_of (λ x. pos 0) xs ≡ pos 0
  unfolding sum_of
  sum_of-zero [] = refl
  sum_of-zero (x ∷ xs) = rw (sum_of-zero xs) (omega int_laws)

pub sum_of-map {ℓ κ} :
    {A : Type ℓ} {B : Type κ} (f : B → ℤ) (g : A → B) (xs : List A)
    → sum_of f (map g xs) ≡ sum_of (λ x. f (g x)) xs
unfolding sum_of
sum_of-map f g [] = refl
sum_of-map f g (x ∷ xs) = rw (sum_of-map f g xs)

pub sum_of_cong :
    {A : Type 0} (f g : A → ℤ) (xs : List A) → All (λ x. f x ≡ g x) xs → sum_of f xs ≡ sum_of g xs
unfolding sum_of
sum_of_cong f g [] h = refl
sum_of_cong f g (x ∷ xs) h = rw (h.0, sum_of_cong f g xs h.1)
