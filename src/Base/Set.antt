-- ===== src/Base/Set.antt =====
-- `BTreeSet`, of which only membership is used: the elements inserted so far.
use openqbw.Base.{List, [], ◌∷◌, Bool, false, ◌||◌}
use openqbw.Base.Order.{Ord, ◌=?◌}

module _ {ℓ} {K : Type ℓ} ⦃o : Ord K⦄ where
  -- `s.contains(&k)`; `s.insert(k)` returns its negation and puts `k` in front.
  unfoldable pub contains : K → List K → Bool
  contains k [] = false
  contains k (j ∷ s) = k =? j || contains k s
