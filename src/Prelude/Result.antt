-- ===== src/Prelude/Result.antt =====
-- The exceptions that the program throws, by the classes that its handlers tell apart, and results
-- of code that may throw.
use Prim.Native.String.{String}
use mathlib.Core.Path.{◌≡◌, refl}
use mathlib.Core.Bool.{Bool, true, false}
use mathlib.Core.Logic.{◌⊎◌, inl, inr}
use mathlib.Core.List.{List, [], ◌∷◌}

pub data Exception : Type 0 where
  -- std::runtime_error
  runtime_error : String → Exception
  -- sql::SQLException, a std::runtime_error of the connector
  sql_exception : Exception
  -- std::invalid_argument
  invalid_argument : String → Exception
  -- std::out_of_range
  out_of_range : Exception
  -- std::length_error
  length_error : Exception
  -- json::parse_error and json::type_error
  json_exception : Exception

pub data Result {ℓ} (A : Type ℓ) : Type ℓ where
  ok : A → Result A
  throws : Exception → Result A

-- `catch (const runtime_error &)`
abbrev pub is_runtime_error : Exception → Bool
is_runtime_error (runtime_error _) = true
is_runtime_error sql_exception = true
is_runtime_error _ = false

-- What comes behind code that may throw.
infixl 5 ◌>>=◌ ◌>>◌
abbrev pub ◌>>=◌ {κ ℓ} : {B : Type κ} {A : Type ℓ} → Result B → (B → Result A) → Result A
throws thrown >>= next = throws thrown
ok value >>= next = next value

-- A loop whose body may throw.
unfoldable pub fold {ℓ κ} : {A : Type ℓ} {B : Type κ} → (B → A → Result B) → B → List A → Result B
fold f b [] = ok b
fold f b (x ∷ xs) = elim (f b x) [ ok c ↦ fold f c xs | throws e ↦ throws e ]

abbrev pub ◌>>◌ {κ ℓ} : {B : Type κ} {A : Type ℓ} → Result B → Result A → Result A
first >> second = first >>= λ _. second

pub >>=-eq-ok {κ ℓ} :
    {B : Type κ} {A : Type ℓ} (first : Result B) (next : B → Result A) {a : A}
    → (first >>= next) ≡ ok a
    → (b : B) × (first ≡ ok b) × (next b ≡ ok a)
>>=-eq-ok (throws thrown) next h = cc
>>=-eq-ok (ok value) next h = (value, refl, h)

pub Result-cases {ℓ} :
    {A : Type ℓ} (m : Result A) → ((a : A) × (m ≡ ok a)) ⊎ ((e : Exception) × (m ≡ throws e))
Result-cases (ok a) = inl (a, refl)
Result-cases (throws e) = inr (e, refl)
