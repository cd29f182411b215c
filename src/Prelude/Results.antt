-- ===== src/Prelude/Results.antt =====
-- `Result<A, E>`: a value or an error.
use mathlib.Core.Bool.{Bool, true, false}
use mathlib.Core.Path.{◌≡◌, refl}
use mathlib.Core.Logic.{◌⊎◌, inl, inr}
use tauri_connector.Prelude.Tests.{if◌then◌else◌}

pub data Result {ℓ κ} (E : Type ℓ) (A : Type κ) : Type (ℓ ⊔ κ) where
  ok : A → Result E A
  err : E → Result E A

infixl 5 ◌>>=◌ ◌>>◌
abbrev pub ◌>>=◌ {ℓ κ μ} :
    {E : Type ℓ} {A : Type κ} {B : Type μ} → Result E A → (A → Result E B) → Result E B
ok a >>= f = f a
err e >>= f = err e

abbrev pub ◌>>◌ {ℓ μ} : {E : Type ℓ} {B : Type μ} → Result E (Unit {0}) → Result E B → Result E B
m >> k = m >>= λ _. k

-- `if wrong { return Err(e) }`
abbrev pub refuse_if {ℓ} : {E : Type ℓ} → Bool → E → Result E (Unit {0})
refuse_if true e = err e
refuse_if false e = ok tt

abbrev pub is_ok {ℓ κ} : {E : Type ℓ} {A : Type κ} → Result E A → Bool
is_ok (ok a) = true
is_ok (err e) = false

-- a result with the equation that says which it is
pub Result-cases {ℓ κ} :
    {E : Type ℓ} {A : Type κ} (r : Result E A) → ((e : E) × (r ≡ err e)) ⊎ ((x : A) × (r ≡ ok x))
Result-cases (err e) = inl (e, refl)
Result-cases (ok x) = inr (x, refl)

-- Every error is of one kind and every value of another.
abbrev pub Fares {ℓ κ} :
    {E : Type ℓ} {A : Type κ} → (E → Type 0) → (A → Type 0) → Result E A → Type 0
Fares P Q (ok x) = Q x
Fares P Q (err e) = P e

pub Fares-bind {ℓ κ μ} :
    {E : Type ℓ} {A : Type κ} {B : Type μ} (P : E → Type 0) (Q : A → Type 0) (R : B → Type 0)
    (m : Result E A) (k : A → Result E B)
    → Fares P Q m
    → ((x : A) → Q x → Fares P R (k x))
    → Fares P R (m >>= k)
Fares-bind P Q R (ok x) k h next = next x h
Fares-bind P Q R (err e) k h next = h

-- a value that is there is of its kind
pub value_of_Fares {ℓ κ} :
    {E : Type ℓ} {A : Type κ} (P : E → Type 0) (Q : A → Type 0) (m : Result E A) (x : A)
    → Fares P Q m
    → m ≡ ok x
    → Q x
value_of_Fares P Q (ok y) x h e = let same : y ≡ x = cc in rw (← same) h
value_of_Fares P Q (err y) x h e = absurd (cc)

pub Fares-refuse_if {ℓ κ} :
    {E : Type ℓ} {A : Type κ} (P : E → Type 0) (Q : A → Type 0) (wrong : Bool) (e : E)
    (k : Result E A)
    → P e
    → (wrong ≡ false → Fares P Q k)
    → Fares P Q (refuse_if wrong e >> k)
Fares-refuse_if P Q true e k p next = p
Fares-refuse_if P Q false e k p next = next refl

pub Fares-any {ℓ κ} : {E : Type ℓ} {A : Type κ} (r : Result E A) → Fares (λ _. Unit) (λ _. Unit) r
Fares-any (ok x) = tt
Fares-any (err e) = tt

-- what holds of both branches
pub if_holds {ℓ} :
    {A : Type ℓ} (P : A → Type 0) (b : Bool) (x y : A) → P x → P y → P (if b then x else y)
if_holds P true x y px py = px
if_holds P false x y px py = py

-- the same, where the test is known
pub if_cases {ℓ} :
    {A : Type ℓ} (P : A → Type 0) (b : Bool) (x y : A)
    → (b ≡ true → P x)
    → (b ≡ false → P y)
    → P (if b then x else y)
if_cases P true x y px py = px refl
if_cases P false x y px py = py refl

pub Fares-if {ℓ κ} :
    {E : Type ℓ} {A : Type κ} (P : E → Type 0) (Q : A → Type 0) (b : Bool) (x : A) (e : E)
    → Q x
    → P e
    → Fares P Q (if b then ok x else err e)
Fares-if P Q b x e = if_holds (Fares P Q) b (ok x) (err e)
