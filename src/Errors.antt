-- ===== src/Errors.antt =====
-- The application's exceptions (app/core/exceptions.py) and calls that return or raise.
-- A message built by an f-string is its template and the value that fills it.
use in_work_marketing_os_bac.Base.{
  ℕ, String, List, Bool, true, false, ◌≡◌, refl, Option, none, some, ◌⊎◌, inl, inr,
}

pub data Message : Type 0 where
  text : String → Message
  with_name : String → String → Message
  with_number : String → ℕ → Message
  -- text that a user typed, as code points
  typed : List ℕ → Message
  operation_failed : ℕ → Message → Message

-- One constructor for each subclass of `AppError`, and two exceptions that are none: `integrity`, the
-- database's own error at a flush or commit that breaks a constraint, and `key_error`.
pub data Exn : Type 0 where
  bad_request auth forbidden not_found conflict : Message → Exn
  payload_too_large unsupported_media too_many_requests : Message → Exn
  integrity key_error : Exn

-- `exc.message`
unfoldable pub message : Exn → Message
message (bad_request m) = m
message (auth m) = m
message (forbidden m) = m
message (not_found m) = m
message (conflict m) = m
message (payload_too_large m) = m
message (unsupported_media m) = m
message (too_many_requests m) = m
message integrity = text ""
message key_error = text ""

-- `except AppError`
abbrev pub is_app_error : Exn → Bool
is_app_error integrity = false
is_app_error key_error = false
is_app_error _ = true

-- What a call does: raise, or return a value.
pub data Result {ℓ} (Value : Type ℓ) : Type ℓ where
  err : Exn → Result Value
  ok : Value → Result Value

infixl 5 ◌>>=◌ ◌>>◌
-- statements in sequence: an exception skips the rest
abbrev pub ◌>>=◌ {ℓ κ} :
    {Value : Type ℓ} {Next : Type κ} → Result Value → (Value → Result Next) → Result Next
err raised >>= rest = err raised
ok value >>= rest = rest value

-- a check, then the rest
abbrev pub ◌>>◌ {κ} : {Next : Type κ} → Result (Unit {0}) → Result Next → Result Next
check >> rest = check >>= λ done. rest

-- `if b: raise e`
abbrev pub raise_if : Bool → Exn → Result (Unit {0})
raise_if true e = err e
raise_if false e = ok tt

-- `if x is None: raise e`
abbrev pub or_raise {ℓ} : {A : Type ℓ} → Option A → Exn → Result A
or_raise none e = err e
or_raise (some a) e = ok a

pub Result-cases {ℓ} :
    {Value : Type ℓ} (call : Result Value)
    → ((value : Value) × (call ≡ ok value)) ⊎ ((raised : Exn) × (call ≡ err raised))
Result-cases (err raised) = inr (raised, refl)
Result-cases (ok value) = inl (value, refl)

-- Inversion of a call that returned.
pub >>=-eq-ok {ℓ κ} :
    {Value : Type ℓ} {Next : Type κ} (call : Result Value) (rest : Value → Result Next)
    {last : Next}
    → (call >>= rest) ≡ ok last
    → (value : Value) × (call ≡ ok value) × (rest value ≡ ok last)
>>=-eq-ok (err raised) rest returned = cc
>>=-eq-ok (ok value) rest returned = (value, refl, returned)

abbrev pub is_ok {ℓ} : {A : Type ℓ} → Result A → Bool
is_ok (ok _) = true
is_ok (err _) = false

pub raise_if-eq-ok {κ} :
    {B : Type κ} (t : Bool) (e : Exn) (k : Result B) {b : B}
    → (raise_if t e >> k) ≡ ok b
    → (t ≡ false) × (k ≡ ok b)
raise_if-eq-ok true e k h = cc
raise_if-eq-ok false e k h = (refl, h)

pub or_raise-eq-ok {ℓ} :
    {A : Type ℓ} (o : Option A) (e : Exn) {a : A} → or_raise o e ≡ ok a → o ≡ some a
or_raise-eq-ok none e h = cc
or_raise-eq-ok (some a) e h = cc
