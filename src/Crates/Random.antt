-- ===== src/Crates/Random.antt =====
-- The `rand` crate's `OsRng` as explicit state, and computations that draw from it.
use evnx_crypto.Base.Bytes.{Bytes}
use evnx_crypto.Base.Outcome.{Outcome, ok, err, panic, Safe, map_err as on_error}
use evnx_crypto.Base.{ℕ, ◌≡◌, length}

pub record Rand : Type 1 where
  pub Rng : Type 0
  -- The bytes that fill a buffer of the given length, and the generator after the draw.
  pub fill_bytes : ℕ → Rng → Bytes × Rng

-- A fill writes the whole buffer.
pub record IsFilling (R : Rand) : Type 0 where
  pub length-fill_bytes : (n : ℕ) (g : R.Rng) → length (R.fill_bytes n g).0 ≡ n

-- A computation that draws from the generator; it is advanced on the error paths too.
abbrev pub Random {ℓ κ μ} : Type ℓ → Type κ → Type μ → Type (ℓ ⊔ κ ⊔ μ)
Random G E A = G → Outcome E A × G

module _ {ℓ κ μ} {G : Type ℓ} {E : Type κ} {A : Type μ} where
  -- A computation that draws nothing.
  abbrev pub lift : Outcome E A → Random G E A
  lift r g = (r, g)

  -- A draw, which cannot fail.
  abbrev pub draw : (G → A × G) → Random G E A
  draw f g = let (a, g') = f g in (ok a, g')

infixl 5 ◌>>=◌ ◌>>◌
abbrev pub ◌>>=◌ {ℓ κ μ ν} :
    {G : Type ℓ} {E : Type κ} {A : Type μ} {B : Type ν}
    → Random G E A
    → (A → Random G E B)
    → Random G E B
◌>>=◌ m f g =
    let (r, g') = m g in elim r [ ok a ↦ f a g' | err e ↦ (err e, g') | panic ↦ (panic, g') ]

abbrev pub ◌>>◌ {ℓ κ μ} :
    {G : Type ℓ} {E : Type κ} {B : Type μ} → Random G E (Unit {0}) → Random G E B → Random G E B
m >> k = m >>= λ _. k

-- `.map_err(f)`
abbrev pub map_err {ℓ κ μ ν} :
    {G : Type ℓ} {E : Type κ} {F : Type μ} {A : Type ν} → (E → F) → Random G E A → Random G F A
map_err f m g = let (r, g') = m g in (on_error f r, g')

-- The rule by which a block of draws is safe.
module _ {ℓ κ μ ν} {G : Type ℓ} {E : Type κ} {A : Type μ} {B : Type ν} where
  after_draw :
      (P : A → Type 0) (Q : B → Type 0) (r : Outcome E A) (g' : G) (f : A → Random G E B)
      → Safe P r
      → ((a : A) (g' : G) → P a → Safe Q (f a g').0)
      → Safe Q (((λ (_ : G). (r, g')) >>= f) g').0
  after_draw P Q (ok a) g' f h hf = hf a g' h
  after_draw P Q (err e) g' f h hf = tt
  after_draw P Q panic g' f h hf = h

  pub Safe-bind_random :
      (P : A → Type 0) (Q : B → Type 0) (m : Random G E A) (f : A → Random G E B) (g : G)
      → Safe P (m g).0
      → ((a : A) (g' : G) → P a → Safe Q (f a g').0)
      → Safe Q ((m >>= f) g).0
  Safe-bind_random P Q m f g hm hf = after_draw P Q (m g).0 (m g).1 f hm hf
