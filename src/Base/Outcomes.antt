-- ===== src/Base/Outcomes.antt =====
-- Results of fallible code: a value, an error value, a Rust panic, or a loop that used up the fuel
-- that the model gives it (the code has no such outcome; each use of fuel has a theorem that it
-- does not happen).
use mathlib.Core.Path.{◌≡◌, refl}
use mathlib.Core.Bool.{Bool, true, false}
use native.Mathlib.Omega.{arith}

pub data Outcome {ℓ κ} (E : Type κ) (A : Type ℓ) : Type (ℓ ⊔ κ) where
  ok : A → Outcome E A
  err : E → Outcome E A
  panic : Outcome E A
  stuck : Outcome E A

-- `?`
infixl 5 ◌>>=◌
abbrev pub ◌>>=◌ {κ ℓ μ} :
    {E : Type κ} {A : Type ℓ} {B : Type μ} → Outcome E A → (A → Outcome E B) → Outcome E B
panic >>= next = panic
stuck >>= next = stuck
err error >>= next = err error
ok value >>= next = next value

infixl 5 ◌>>◌
abbrev pub ◌>>◌ {κ μ} : {E : Type κ} {B : Type μ} → Outcome E (Unit {0}) → Outcome E B → Outcome E B
check >> last = check >>= λ _. last

-- `map_err`, and `?` through a `From` conversion.
abbrev pub map_err {ℓ κ μ} :
    {E : Type κ} {F : Type μ} {A : Type ℓ} → (E → F) → Outcome E A → Outcome F A
map_err f (ok a) = ok a
map_err f (err e) = err (f e)
map_err f panic = panic
map_err f stuck = stuck

-- What a successful chain consists of.
pub >>=-eq-ok {κ ℓ μ} :
    {E : Type κ} {A : Type ℓ} {B : Type μ} (first : Outcome E A) (next : A → Outcome E B)
    {result : B}
    → (first >>= next) ≡ ok result
    → (value : A) × (first ≡ ok value) × (next value ≡ ok result)
>>=-eq-ok panic next e = cc
>>=-eq-ok stuck next e = cc
>>=-eq-ok (err error) next e = cc
>>=-eq-ok (ok value) next e = (value, refl, e)

pub map_err-eq-ok {ℓ κ μ} :
    {E : Type κ} {F : Type μ} {A : Type ℓ} (f : E → F) (m : Outcome E A) {a : A}
    → map_err f m ≡ ok a
    → m ≡ ok a
map_err-eq-ok f m e = ground arith

-- The code has ended with a value or an error value.
abbrev pub is_settled {ℓ κ} : {E : Type κ} {A : Type ℓ} → Outcome E A → Bool
is_settled (ok a) = true
is_settled (err e) = true
is_settled panic = false
is_settled stuck = false

pub is_settled->>= {κ ℓ μ} :
    {E : Type κ} {A : Type ℓ} {B : Type μ} (first : Outcome E A) (next : A → Outcome E B)
    → is_settled first ≡ true
    → ((a : A) → first ≡ ok a → is_settled (next a) ≡ true)
    → is_settled (first >>= next) ≡ true
is_settled->>= panic next h n = h
is_settled->>= stuck next h n = h
is_settled->>= (err error) next h n = refl
is_settled->>= (ok a) next h n = n a refl

pub is_settled-map_err {ℓ κ μ} :
    {E : Type κ} {F : Type μ} {A : Type ℓ} (f : E → F) (m : Outcome E A)
    → is_settled m ≡ true
    → is_settled (map_err f m) ≡ true
is_settled-map_err f m h = ground arith

pub ok_injective {ℓ κ} :
    {E : Type κ} {A : Type ℓ} {a b : A} → ◌≡◌ {A = Outcome E A} (ok a) (ok b) → a ≡ b
ok_injective e = cc e
