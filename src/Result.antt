-- ===== src/Result.antt =====
-- Python's exceptions as values: the classes that the modelled code raises, with their messages.
-- A value that the source interpolates into a message is left out of it.
pub mod Chain
use linux_cmnd.Prelude.{◌≡◌, refl, Bool, true, false, String, ◌⊎◌, inl, inr}

pub data Error : Type 0 where
  value_error config_error update_error key_error type_error attribute_error : String → Error
  runtime_error permission_error os_error unsafe_archive : String → Error
  backup_error restore_error protocol_error : String → Error

pub data Result {ℓ} (A : Type ℓ) : Type ℓ where
  ok : A → Result A
  err : Error → Result A

-- What comes after a raise is not run.
module _ {ℓ κ} {A : Type ℓ} {B : Type κ} where
  infixl 5 ◌>>=◌ ◌>>◌
  abbrev pub ◌>>=◌ : Result A → (A → Result B) → Result B
  err e >>= next = err e
  ok value >>= next = next value

  abbrev pub ◌>>◌ : Result A → Result B → Result B
  first >> second = first >>= λ ignored. second

-- `if bad: raise e`
abbrev pub refuse : Bool → Error → Result (Unit {0})
refuse true e = err e
refuse false e = ok tt

abbrev pub is_ok {ℓ} : {A : Type ℓ} → Result A → Bool
is_ok (ok a) = true
is_ok (err e) = false

-- A successful bind ran both parts.
pub >>=-eq-ok {ℓ κ} :
    {A : Type ℓ} {B : Type κ} (r : Result A) (next : A → Result B) {b : B}
    → (r >>= next) ≡ ok b
    → (a : A) × (r ≡ ok a) × (next a ≡ ok b)
>>=-eq-ok (err e) next returned = cc
>>=-eq-ok (ok value) next returned = (value, refl, returned)

-- A guard that was passed had a false test.
pub refuse-eq-ok :
    {B : Type 0} (test : Bool) (e : Error) (k : Result B) {b : B}
    → (refuse test e >> k) ≡ ok b
    → (test ≡ false) × (k ≡ ok b)
refuse-eq-ok true e k h = cc
refuse-eq-ok false e k h = (refl, h)

pub Result-cases {ℓ} :
    {A : Type ℓ} (r : Result A) → ((a : A) × (r ≡ ok a)) ⊎ ((e : Error) × (r ≡ err e))
Result-cases (ok a) = inl (a, refl)
Result-cases (err e) = inr (e, refl)
