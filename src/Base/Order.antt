-- ===== src/Base/Order.antt =====
-- The trait `Ord`, with the laws that it asks of `cmp` (its `==` is read as `≡`).
use openqbw.Base.{ℕ, ◌≡◌, refl, sym, ◌⊎◌, inl, inr, arith, Bool, true, false}
use Prim.Native.Nat.{compare, Ordering}
use Prim.Native.Nat.Ordering.{lt, eq, gt}

pub record IsLawful {ℓ} {Key : Type ℓ} (order : Key → Key → Ordering) : Type ℓ where
  pub lt_trans : (x y z : Key) → order x y ≡ lt → order y z ≡ lt → order x z ≡ lt
  pub gt_of_lt : (x y : Key) → order x y ≡ lt → order y x ≡ gt
  pub lt_of_gt : (x y : Key) → order x y ≡ gt → order y x ≡ lt
  pub eq_of_cmp : (x y : Key) → order x y ≡ eq → x ≡ y
  pub cmp_refl : (x : Key) → order x x ≡ eq

pub record Ord {ℓ} (Key : Type ℓ) : Type ℓ where
  pub cmp : Key → Key → Ordering
  pub lawful : IsLawful cmp
  pub open lawful use *

-- `==` of a type whose `Eq` agrees with its `Ord`
infix 50 ◌=?◌
abbrev pub ◌=?◌ {ℓ} : {K : Type ℓ} ⦃o : Ord K⦄ → K → K → Bool
◌=?◌ ⦃o⦄ a b = elim (o.cmp a b) [ eq ↦ true | _ ↦ false ]

pub compare-IsLawful : IsLawful compare
compare-IsLawful = ground arith

instance abbrev pub nat_ord : Ord ℕ
nat_ord = record { cmp = compare; lawful = compare-IsLawful }

-- `Ordering::then`, which a comparison of tuples uses too
abbrev pub then_cmp : Ordering → Ordering → Ordering
then_cmp eq second = second
then_cmp lt second = lt
then_cmp gt second = gt

pub Ordering-cases : (x : Ordering) → (x ≡ lt) ⊎ (x ≡ eq) ⊎ (x ≡ gt)
Ordering-cases lt = inl refl
Ordering-cases eq = inr (inl refl)
Ordering-cases gt = inr (inr refl)

module _ {ℓ} {K : Type ℓ} ⦃o : Ord K⦄ where
  pub ne_of_=? : (a b : K) → (a =? b) ≡ false → ¬ (a ≡ b)
  ne_of_=? a b h e = cc (o.cmp_refl b, rw e at h)

  pub eq_of_=? : (a b : K) → (a =? b) ≡ true → a ≡ b
  eq_of_=? a b h = ground (arith, o.eq_of_cmp a b)

  pub =?_refl : (a : K) → (a =? a) ≡ true
  =?_refl a = rw (o.cmp_refl a, ◌=?◌)

  pub =?_of_ne : (a b : K) → ¬ (a ≡ b) → (a =? b) ≡ false
  =?_of_ne a b h = ground (arith, o.eq_of_cmp a b)

  pub cmp_eq_sym : (a b : K) → o.cmp a b ≡ eq → o.cmp b a ≡ eq
  cmp_eq_sym a b h = let same : a ≡ b = o.eq_of_cmp a b h in rw same (o.cmp_refl b)

  pub =?_sym : (a b : K) → (a =? b) ≡ false → (b =? a) ≡ false
  =?_sym a b h = =?_of_ne b a (λ e. ne_of_=? a b h (sym e))
