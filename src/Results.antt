-- ===== src/Results.antt =====
-- A Go result with an error, and calls that may panic. An error is its text.
use rolesanywhere_credential.Prelude.{◌≡◌, refl, String, ◌⊎◌, inl, inr}

pub data Result {ℓ} (A : Type ℓ) : Type ℓ where
  ok : A → Result A
  err : String → Result A

-- The next call, unless there was an error.
infixl 5 ◌>>=◌
abbrev pub ◌>>=◌ {ℓ κ} : {A : Type ℓ} → {B : Type κ} → Result A → (A → Result B) → Result B
err e >>= next = err e
ok a >>= next = next a

pub Result-cases {ℓ} :
    {A : Type ℓ} (m : Result A) → ((a : A) × (m ≡ ok a)) ⊎ ((e : String) × (m ≡ err e))
Result-cases (ok a) = inl (a, refl)
Result-cases (err e) = inr (e, refl)

pub ok-injective {ℓ} : {A : Type ℓ} {a b : A} → ok a ≡ ok b → a ≡ b
ok-injective h = cc h

-- `if err != nil { return errors.New(message) }`: the error's own text is dropped.
abbrev pub or_message {ℓ} : {A : Type ℓ} → String → Result A → Result A
or_message message (ok a) = ok a
or_message message (err e) = err message

-- A call that returns, or panics on a nil pointer or an index out of range.
pub data Outcome {ℓ} (A : Type ℓ) : Type ℓ where
  returned : A → Outcome A
  panicked : Outcome A
