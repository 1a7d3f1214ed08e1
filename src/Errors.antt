-- ===== src/Errors.antt =====
-- The exceptions that the application and the repository raise, as values. A constructor is the
-- exception's class and holds the fixed part of its message.
use cortex_mem.Prelude.{◌⊎◌, inl, inr, String, if◌then◌else◌, Bool, true, false, ◌≡◌, refl}

pub data Error : Type 0 where
  value_error permission_error lookup_error runtime_error integrity_error assertion_error :
      String → Error

pub data Result {ℓ} (A : Type ℓ) : Type ℓ where
  ok : A → Result A
  raise : Error → Result A

module _ {ℓ κ} {A : Type ℓ} {B : Type κ} where
  infixl 10 ◌>>=◌
  abbrev pub ◌>>=◌ : Result A → (A → Result B) → Result B
  ok value >>= next = next value
  raise e >>= next = raise e

  -- A chain returns only if its first step did.
  pub bind-returns :
      (step : Result A) (next : A → Result B) {b : B}
      → (step >>= next) ≡ ok b
      → (a : A) × (step ≡ ok a) × (next a ≡ ok b)
  bind-returns (ok value) next h = (value, refl, h)
  bind-returns (raise e) next h = cc

-- `if test: raise e`
abbrev pub raise_if : Bool → Error → Result (Unit {0})
raise_if test e = elim test [ true ↦ raise e | false ↦ ok tt ]

infixl 10 ◌>>◌
abbrev pub ◌>>◌ {κ} : {B : Type κ} → Result (Unit {0}) → Result B → Result B
step >> rest = step >>= λ _. rest

pub raise_if-eq-ok : (b : Bool) (e : Error) (u : Unit {0}) → raise_if b e ≡ ok u → b ≡ false
raise_if-eq-ok true e u h = cc
raise_if-eq-ok false e u h = refl

pub ok-inj {ℓ} : {A : Type ℓ} {a b : A} → ok a ≡ ok b → a ≡ b
ok-inj e = cc

pub raise_unless-ok {ℓ} :
    {A : Type ℓ} {a b : A} (test : Bool) (e : Error)
    → (if test then raise e else ok a) ≡ ok b
    → a ≡ b
raise_unless-ok true e h = cc
raise_unless-ok false e h = cc

pub raise-ne-ok : {A : Type 0} {e : Error} {a : A} → raise e ≡ ok a → ⊥
raise-ne-ok h = cc

pub Result-cases :
    {A : Type 0} (r : Result A) → ((e : Error) × (r ≡ raise e)) ⊎ ((a : A) × (r ≡ ok a))
Result-cases (raise e) = inl (e, refl)
Result-cases (ok a) = inr (a, refl)
