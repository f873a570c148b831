-- ===== src/Common/Outcome.antt =====
-- The outcome of code that may throw: a value, an exception, an access outside a container (which
-- is undefined in C++), or a loop of the model that ran out of fuel.
use mathlib.Core.Path.{◌≡◌, refl}
use mathlib.Core.Option.{Option, none, some}

pub data Exception : Type 0 where
  logic_error invalid_argument bad_optional_access runtime_error : Exception

pub data Run {ℓ} (A : Type ℓ) : Type ℓ where
  done : A → Run A
  raised : Exception → Run A
  fault : Run A
  stuck : Run A

infixl 5 ◌>>=◌
abbrev pub ◌>>=◌ {ℓ κ} : {A : Type ℓ} {B : Type κ} → Run A → (A → Run B) → Run B
done a >>= f = f a
raised e >>= f = raised e
fault >>= f = fault
stuck >>= f = stuck

-- An access by index or pointer: `none` is undefined behaviour.
abbrev pub deref {ℓ} : {A : Type ℓ} → Option A → Run A
deref none = fault
deref (some a) = done a

-- `std::optional::value()`.
abbrev pub value {ℓ} : {A : Type ℓ} → Option A → Run A
value none = raised bad_optional_access
value (some a) = done a

-- A result, where there is one, has the property: partial correctness.
abbrev pub Holds {ℓ κ} : {A : Type ℓ} → (A → Type κ) → Run A → Type κ
Holds P (done a) = P a
Holds P (raised e) = Unit
Holds P fault = Unit
Holds P stuck = Unit

module _ {ℓ κ ℓ' κ'} {A : Type ℓ} {B : Type ℓ'} (P : A → Type κ) (Q : B → Type κ') where
  pub Holds->>= :
      (r : Run A) (f : A → Run B) → Holds P r → ((a : A) → P a → Holds Q (f a)) → Holds Q (r >>= f)
  Holds->>= (done a) f h k = k a h
  Holds->>= (raised e) f h k = tt
  Holds->>= fault f h k = tt
  Holds->>= stuck f h k = tt

-- There is a result, and it has the property: total correctness.
abbrev pub Returns {ℓ κ} : {A : Type ℓ} → (A → Type κ) → Run A → Type (ℓ ⊔ κ)
Returns {A = A} P r = (a : A) × (r ≡ done a) × P a

module _ {ℓ κ ℓ' κ'} {A : Type ℓ} {B : Type ℓ'} (P : A → Type κ) (Q : B → Type κ') where
  pub Returns->>= :
      (r : Run A) (f : A → Run B)
      → Returns P r
      → ((a : A) → P a → Returns Q (f a))
      → Returns Q (r >>= f)
  Returns->>= r f (a, e, p) k = rw e (k a p)

module _ {ℓ κ} {A : Type ℓ} {B : Type κ} where
  -- Continuations that agree on every value can be exchanged.
  pub >>=_ext : (r : Run A) (f g : A → Run B) → ((a : A) → f a ≡ g a) → (r >>= f) ≡ (r >>= g)
  >>=_ext (done a) f g h = h a
  >>=_ext (raised e) f g h = refl
  >>=_ext fault f g h = refl
  >>=_ext stuck f g h = refl
