-- ===== src/Core/Status.antt =====
-- include/dandb/core/Status.h and Result.h. A status keeps its code; the text of its message is
-- not modelled. `Status` without a value is `Result Unit`.
use dan_db.Prelude.{◌≡◌, refl, Bool, true, false, ◌⊎◌, inl, inr}

pub data StatusCode : Type 0 where
  invalid_argument io_error corruption not_found already_exists : StatusCode
  constraint_violation transaction_error parse_error incomplete_input internal_error : StatusCode

pub data Result {ℓ} (A : Type ℓ) : Type ℓ where
  ok : A → Result A
  err : StatusCode → Result A

infixl 5 ◌>>=◌ ◌>>◌
-- `if(!result.ok()) return result.status();`
abbrev pub ◌>>=◌ {ℓ κ} : {A : Type ℓ} {B : Type κ} → Result A → (A → Result B) → Result B
err code >>= continue = err code
ok value >>= continue = continue value

-- `if(!test) return Status::code(...);`
abbrev pub require : Bool → StatusCode → Result (Unit {0})
require true e = ok tt
require false e = err e

-- The same for a status.
abbrev pub ◌>>◌ {ℓ} : {B : Type ℓ} → Result (Unit {0}) → Result B → Result B
status >> rest = status >>= λ done. rest

abbrev pub is_ok {ℓ} : {A : Type ℓ} → Result A → Bool
is_ok (ok a) = true
is_ok (err e) = false

pub Result-cases {ℓ} :
    {A : Type ℓ} (r : Result A) → ((a : A) × (r ≡ ok a)) ⊎ ((e : StatusCode) × (r ≡ err e))
Result-cases (ok a) = inl (a, refl)
Result-cases (err e) = inr (e, refl)

-- When a chain succeeds, so did its first step.
pub >>=-eq-ok {ℓ κ} :
    {A : Type ℓ} {B : Type κ} (first : Result A) (continue : A → Result B) {result : B}
    → (first >>= continue) ≡ ok result
    → (value : A) × (first ≡ ok value) × (continue value ≡ ok result)
>>=-eq-ok (err code) continue h = absurd (cc h)
>>=-eq-ok (ok value) continue h = (value, refl, h)

pub require-eq-ok : (t : Bool) (e : StatusCode) → require t e ≡ ok tt → t ≡ true
require-eq-ok true e h = refl
require-eq-ok false e h = cc
