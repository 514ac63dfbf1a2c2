-- ===== src/Base/Outcome.antt =====
-- How a call of the crate ends: with a value, with an error value, or by a panic.
use mathlib.Core.Path.{◌≡◌, refl}
use mathlib.Core.Logic.{◌⊎◌, inl, inr}
use mathlib.Core.Option.{Option, none, some}
use mathlib.Core.Bool.{Bool, true, false}

pub data Outcome {ℓ κ} (E : Type ℓ) (A : Type κ) : Type (ℓ ⊔ κ) where
  ok : A → Outcome E A
  err : E → Outcome E A
  panic : Outcome E A

infixl 5 ◌>>=◌ ◌>>◌
abbrev pub ◌>>=◌ {ℓ κ μ} :
    {E : Type ℓ} {A : Type κ} {B : Type μ} → Outcome E A → (A → Outcome E B) → Outcome E B
ok a >>= f = f a
err e >>= f = err e
panic >>= f = panic

abbrev pub ◌>>◌ {ℓ κ} : {E : Type ℓ} {B : Type κ} → Outcome E (Unit {0}) → Outcome E B → Outcome E B
m >> k = m >>= λ _. k

-- `if test { return Err(e) }`
abbrev pub fail_if {ℓ} : {E : Type ℓ} → Bool → E → Outcome E (Unit {0})
fail_if true e = err e
fail_if false e = ok tt

-- An operation of the language that panics unless the test holds.
abbrev pub assert {ℓ} : {E : Type ℓ} → Bool → Outcome E (Unit {0})
assert true = ok tt
assert false = panic

-- `.map_err(|_| e)` on a result whose error carries nothing that the crate uses.
abbrev pub or_err {ℓ κ} : {E : Type ℓ} {A : Type κ} → Option A → E → Outcome E A
or_err none e = err e
or_err (some a) e = ok a

-- `.map_err(f)` on a result of another crate, whose error is `inl`.
abbrev pub or_failure {ℓ κ μ} :
    {F : Type ℓ} {E : Type κ} {A : Type μ} → (F → E) → F ⊎ A → Outcome E A
or_failure f (inl e) = err (f e)
or_failure f (inr a) = ok a

-- `.map_err(f)`
abbrev pub map_err {ℓ κ μ} :
    {E : Type ℓ} {F : Type κ} {A : Type μ} → (E → F) → Outcome E A → Outcome F A
map_err f (ok a) = ok a
map_err f (err e) = err (f e)
map_err f panic = panic

-- `.expect(message)`: an error becomes a panic.
abbrev pub expect {ℓ κ μ} : {E : Type ℓ} {F : Type κ} {A : Type μ} → Outcome E A → Outcome F A
expect (ok a) = ok a
expect (err e) = panic
expect panic = panic

abbrev pub map {ℓ κ μ} :
    {E : Type ℓ} {A : Type κ} {B : Type μ} → (A → B) → Outcome E A → Outcome E B
map f m = m >>= λ a. ok (f a)

-- The value of a success has the property, and nothing panics.
abbrev pub Safe {ℓ κ} : {E : Type ℓ} {A : Type κ} → (A → Type 0) → Outcome E A → Type 0
Safe P (ok a) = P a
Safe P (err e) = Unit
Safe P panic = ⊥

-- A success went through both parts of a bind.
pub >>=-eq_ok {ℓ κ μ} :
    {E : Type ℓ} {A : Type κ} {B : Type μ} (m : Outcome E A) (f : A → Outcome E B) {b : B}
    → (m >>= f) ≡ ok b
    → (a : A) × (m ≡ ok a) × (f a ≡ ok b)
>>=-eq_ok (ok a) f h = (a, refl, h)
>>=-eq_ok (err e) f h = cc
>>=-eq_ok panic f h = cc

pub or_err-eq_ok {ℓ κ} :
    {E : Type ℓ} {A : Type κ} (o : Option A) (e : E) {a : A} → or_err o e ≡ ok a → o ≡ some a
or_err-eq_ok none e h = cc
or_err-eq_ok (some a) e h = cc

pub fail_if-eq_ok {ℓ} :
    {E : Type ℓ} (b : Bool) (e : E) {u : Unit {0}} → fail_if b e ≡ ok u → b ≡ false
fail_if-eq_ok true e h = cc
fail_if-eq_ok false e h = refl

pub ok_injective {ℓ κ} :
    {E : Type ℓ} {A : Type κ} {a b : A} → ◌≡◌ {A = Outcome E A} (ok a) (ok b) → a ≡ b
ok_injective h = cc

-- `Safe`, by its two parts.
pub Safe-of {ℓ κ} :
    {E : Type ℓ} {A : Type κ} (P : A → Type 0) (r : Outcome E A)
    → ¬ (r ≡ panic)
    → ((a : A) → r ≡ ok a → P a)
    → Safe P r
Safe-of P (ok a) live holds = holds a refl
Safe-of P (err e) live holds = tt
Safe-of P panic live holds = live refl

abbrev pub Any {ℓ} : {A : Type ℓ} → A → Type 0
Any a = Unit {0}

pub Safe-live {ℓ κ} : {E : Type ℓ} {A : Type κ} (r : Outcome E A) → ¬ (r ≡ panic) → Safe Any r
Safe-live r live = Safe-of Any r live (λ _ _. tt)

-- The rules by which a block of calls is safe.
pub Safe-bind {ℓ κ μ} :
    {E : Type ℓ} {A : Type κ} {B : Type μ} (P : A → Type 0) (Q : B → Type 0) (m : Outcome E A)
    (f : A → Outcome E B)
    → Safe P m
    → ((a : A) → P a → Safe Q (f a))
    → Safe Q (m >>= f)
Safe-bind P Q (ok a) f hm hf = hf a hm
Safe-bind P Q (err e) f hm hf = tt
Safe-bind P Q panic f hm hf = hm

pub Safe-map_err {ℓ κ μ} :
    {E : Type ℓ} {F : Type κ} {A : Type μ} (P : A → Type 0) (f : E → F) (r : Outcome E A)
    → Safe P r
    → Safe P (map_err f r)
Safe-map_err P f (ok a) h = h
Safe-map_err P f (err e) h = tt
Safe-map_err P f panic h = h

pub Safe-fail_if {ℓ κ} :
    {E : Type ℓ} {B : Type κ} (Q : B → Type 0) (b : Bool) (e : E) (k : Outcome E B)
    → (b ≡ false → Safe Q k)
    → Safe Q (fail_if b e >> k)
Safe-fail_if Q true e k h = tt
Safe-fail_if Q false e k h = h refl

pub Safe-or_err {ℓ κ} : {E : Type ℓ} {A : Type κ} (o : Option A) (e : E) → Safe Any (or_err o e)
Safe-or_err none e = tt
Safe-or_err (some a) e = tt

-- A safe outcome is no panic.
pub Safe-ne-panic {ℓ κ} :
    {E : Type ℓ} {A : Type κ} (P : A → Type 0) (r : Outcome E A) → Safe P r → ¬ (r ≡ panic)
Safe-ne-panic P (ok a) h e = cc
Safe-ne-panic P (err x) h e = cc
Safe-ne-panic P panic h e = h

-- How a computation ends.
pub Outcome-cases {ℓ κ} :
    {E : Type ℓ} {A : Type κ} (r : Outcome E A)
    → ((a : A) × (r ≡ ok a)) ⊎ ((e : E) × (r ≡ err e)) ⊎ (r ≡ panic)
Outcome-cases (ok a) = inl (a, refl)
Outcome-cases (err e) = inr (inl (e, refl))
Outcome-cases panic = inr (inr refl)
