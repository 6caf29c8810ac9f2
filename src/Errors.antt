-- ===== src/Errors.antt =====
-- shared/src/errors.ts and backend/src/middleware/errors.ts: the error codes with their HTTP
-- status, what a handler throws, and the reply that the error handler makes of it.
use safe_pass.Base.{
  ℕ, ◌≡◌, refl, ap, Bool, true, false, Option, none, some, ◌==◌, if◌then◌else◌, ◌⊎◌, inl, inr,
}

pub data ErrorCode : Type 0 where
  validation_failed envelope_malformed auth_required auth_failed totp_required : ErrorCode
  totp_invalid reauth_required vault_forbidden role_insufficient : ErrorCode
  offline_write_refused not_found revision_conflict key_version_stale last_owner : ErrorCode
  rotation_in_progress invitation_exists invitation_not_ready : ErrorCode
  template_field_duplicate template_field_in_use rate_limited : ErrorCode

-- `ERROR_STATUS`
unfoldable pub error_status : ErrorCode → ℕ
error_status validation_failed = 400
error_status envelope_malformed = 400
error_status auth_required = 401
error_status auth_failed = 401
error_status totp_required = 401
error_status totp_invalid = 401
error_status reauth_required = 401
error_status vault_forbidden = 403
error_status role_insufficient = 403
error_status offline_write_refused = 403
error_status not_found = 404
error_status revision_conflict = 409
error_status key_version_stale = 409
error_status last_owner = 409
error_status rotation_in_progress = 409
error_status invitation_exists = 409
error_status invitation_not_ready = 409
error_status template_field_duplicate = 422
error_status template_field_in_use = 422
error_status rate_limited = 429

-- What the error handler reads of a thrown value that is no `ApiError`: whether its message starts
-- with ENVELOPE_MALFORMED, its status code, whether its body has the code RATE_LIMITED, and whether
-- it comes from the request schema.
pub record Thrown : Type 0 where
  pub malformed : Bool
  pub status_code : Option ℕ
  pub limiter_body : Bool
  pub validation : Bool

pub data Failure : Type 0 where
  api : ErrorCode → Failure
  thrown : Thrown → Failure

abbrev no_fault : Thrown
no_fault = record {
  malformed = false;
  status_code = none;
  limiter_body = false;
  validation = false;
}

-- The `Error('ENVELOPE_MALFORMED: …')` of the envelope assertions.
abbrev pub malformed_envelope : Failure
malformed_envelope = thrown (record no_fault { malformed = true })

-- An error of the database client: a violated constraint, or a required row that is missing.
abbrev pub internal : Failure
internal = thrown no_fault

abbrev is_429 : Option ℕ → Bool
is_429 none = false
is_429 (some n) = n == 429

pub record Reply : Type 0 where
  pub status : ℕ
  pub code : ErrorCode

-- The handler that `registerErrorHandler` sets.
unfoldable pub handle_error : Failure → Reply
unfolding error_status
handle_error (api c) = record { status = error_status c; code = c }
handle_error (thrown e) =
    if e.malformed
    then (record { status = 400; code = envelope_malformed })
    else if is_429 e.status_code
    then (record { status = 429; code = rate_limited })
    else if e.limiter_body
    then (record { status = 429; code = rate_limited })
    else if e.validation
    then (record { status = 400; code = validation_failed })
    else (record { status = 500; code = validation_failed })

-- What a handler comes to: the failure that it throws, or its outcome.
pub data Result {ℓ} (X : Type ℓ) : Type ℓ where
  err : Failure → Result X
  ok : X → Result X

-- `if (!row) throw failure;`
unfoldable pub required {ℓ} : {X : Type ℓ} → Option X → Failure → Result X
required none failure = err failure
required (some row) failure = ok row

infixl 5 ◌>>=◌ ◌>>◌
unfoldable pub ◌>>=◌ {ℓ μ} : {X : Type ℓ} {Y : Type μ} → Result X → (X → Result Y) → Result Y
err failure >>= next = err failure
ok x >>= next = next x

-- `if (!test) throw failure;`
unfoldable pub guard : Bool → Failure → Result (Unit {0})
guard false failure = err failure
guard true failure = ok tt

unfoldable pub ◌>>◌ {ℓ} : {Y : Type ℓ} → Result (Unit {0}) → Result Y → Result Y
unfolding ◌>>=◌
step >> next = step >>= λ _. next

-- `if (test) { step }`
unfoldable pub when : Bool → Result (Unit {0}) → Result (Unit {0})
when true m = m
when false m = ok tt

module _ {ℓ κ} {A : Type ℓ} {B : Type κ} where
  -- A chain that succeeds has succeeded in its first step.
  pub >>=-eq-ok :
      (step : Result A) (next : A → Result B) {out : B}
      → (step >>= next) ≡ ok out
      → (a : A) × (step ≡ ok a) × (next a ≡ ok out)
  unfolding ◌>>=◌
  >>=-eq-ok (err x) next done = cc
  >>=-eq-ok (ok a) next done = (a, refl, done)

pub >>-eq-ok {ℓ} :
    {B : Type ℓ} (t : Bool) (e : Failure) (r : Result B) {b : B}
    → (guard t e >> r) ≡ ok b
    → (t ≡ true) × (r ≡ ok b)
unfolding ◌>>=◌ ◌>>◌ guard
>>-eq-ok true e r h = (refl, h)
>>-eq-ok false e r h = cc

pub required-eq-ok {ℓ} :
    {A : Type ℓ} (o : Option A) (e : Failure) {a : A} → required o e ≡ ok a → o ≡ some a
unfolding required
required-eq-ok none e h = cc
required-eq-ok (some a) e h = cc

-- A step under a test has either been skipped or has succeeded.
pub when-eq-ok {ℓ} :
    {B : Type ℓ} (t : Bool) (m : Result (Unit {0})) (r : Result B) {b : B}
    → (when t m >> r) ≡ ok b
    → ((t ≡ false) ⊎ (m ≡ ok tt)) × (r ≡ ok b)
unfolding ◌>>=◌ ◌>>◌ when
when-eq-ok true (ok u) r h = (inr refl, h)
when-eq-ok true (err e) r h = cc
when-eq-ok false m r h = (inl refl, h)

from_ok {ℓ} : {A : Type ℓ} → A → Result A → A
from_ok d (ok a) = a
from_ok d (err e) = d

pub ok-injective {ℓ} : {A : Type ℓ} {a b : A} → ok a ≡ ok b → a ≡ b
unfolding from_ok
ok-injective {a} h = ap (from_ok a) h

pub guard-eq-ok : (t : Bool) (e : Failure) {u : Unit {0}} → guard t e ≡ ok u → t ≡ true
unfolding guard
guard-eq-ok true e h = refl
guard-eq-ok false e h = cc

-- What a step that needs a row leaves for the rest: the row, and that it is there.
pub required-then {ℓ} :
    {A B : Type ℓ} (o : Option A) (e : Failure) (k : A → Result B) {b : B}
    → (required o e >>= k) ≡ ok b
    → (a : A) × (o ≡ some a) × (k a ≡ ok b)
unfolding ◌>>=◌ required
required-then none e k h = cc
required-then (some a) e k h = (a, refl, h)

-- The same inversions with the rest of the proof as their last argument: what they find is then a
-- variable, and long chains stay small.
module _ {ℓ κ μ} {A : Type ℓ} {B : Type κ} {C : Type μ} where
  pub on_bind :
      (m : Result A) (f : A → Result B) {b : B}
      → (m >>= f) ≡ ok b
      → ((a : A) → m ≡ ok a → f a ≡ ok b → C)
      → C
  on_bind m f e k = let (a, p, q) = >>=-eq-ok m f e in k a p q

module _ {ℓ μ} {A B : Type ℓ} {C : Type μ} where
  pub on_required :
      (o : Option A) (x : Failure) (f : A → Result B) {b : B}
      → (required o x >>= f) ≡ ok b
      → ((a : A) → o ≡ some a → f a ≡ ok b → C)
      → C
  on_required o x f e k = let (a, p, q) = required-then o x f e in k a p q

module _ {ℓ μ} {B : Type ℓ} {C : Type μ} where
  pub on_guard :
      (t : Bool) (x : Failure) (r : Result B) {b : B}
      → (guard t x >> r) ≡ ok b
      → (t ≡ true → r ≡ ok b → C)
      → C
  on_guard t x r e k = let (p, q) = >>-eq-ok t x r e in k p q

pub Result-cases {ℓ} :
    {A : Type ℓ} (r : Result A) → ((a : A) × (r ≡ ok a)) ⊎ ((x : Failure) × (r ≡ err x))
Result-cases (ok a) = inl (a, refl)
Result-cases (err x) = inr (x, refl)

abbrev pub is_ok {ℓ} : {A : Type ℓ} → Result A → Bool
is_ok (ok a) = true
is_ok (err x) = false

pub is_ok-eq {ℓ} : {A : Type ℓ} (r : Result A) → is_ok r ≡ true → (a : A) × (r ≡ ok a)
is_ok-eq (ok a) h = (a, refl)
is_ok-eq (err x) h = cc
