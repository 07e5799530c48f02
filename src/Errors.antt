-- ===== src/Errors.antt =====
-- The errors of the service as values: internal/database/dao/dao_errors.go, gRPC status codes, and
-- plain errors. The texts of messages are left out; what decides a caller's branch is kept.
use osac_fulfillment_service.Prelude.{
  Option, Bool, true, false, ◌≡◌, refl, List, String, ◌⊎◌, inl, inr,
}

-- The codes of google.golang.org/grpc/codes that the program returns.
pub data Code : Type 0 where
  invalid_argument not_found already_exists permission_denied failed_precondition : Code
  aborted internal unimplemented : Code

-- The error that PostgreSQL reports: its SQLSTATE, constraint, message, and the columns that the
-- detail of an immutability error names (`none` where the detail cannot be read).
pub data SqlState : Type 0 where
  unique_violation foreign_key_violation deadlock_detected : SqlState
  immutable_code reference_code in_use_code not_unique_code other_code : SqlState

pub record PgError : Type 0 where
  pub state : SqlState
  pub constraint : String
  pub message : String
  pub columns : Option (List String)

pub data Error : Type 0 where
  status : Code → Error
  plain : Error
  not_found_error : String → Error
  already_exists_error : (id name reason : String) → Error
  denied_error : Error
  immutable_error : List String → Error
  reference_error : (reason : String) → Error
  in_use_error : (reason : String) → Error
  deadlock_error : Error
  sql_error : PgError → Error

pub data Result {ℓ} (A : Type ℓ) : Type ℓ where
  ok : A → Result A
  err : Error → Result A

-- An error ends the request: what follows it does not run.
infixl 5 ◌>>=◌
abbrev pub ◌>>=◌ {ℓ κ} : {S : Type ℓ} {T : Type κ} → Result S → (S → Result T) → Result T
err e >>= next = err e
ok s >>= next = next s

infixl 5 ◌>>◌
abbrev pub ◌>>◌ {κ} : {T : Type κ} → Result (Unit {0}) → Result T → Result T
err e >> next = err e
ok done >> next = next

-- `if test { return err }`
abbrev pub refuse : Bool → Error → Result (Unit {0})
refuse true e = err e
refuse false e = ok tt

pub Result-cases {ℓ} :
    {S : Type ℓ} (outcome : Result S)
    → ((s : S) × (outcome ≡ ok s)) ⊎ ((e : Error) × (outcome ≡ err e))
Result-cases (ok s) = inl (s, refl)
Result-cases (err e) = inr (e, refl)

-- What a request that succeeds did first.
pub >>=-eq-ok {ℓ κ} :
    {S : Type ℓ} {T : Type κ} (first : Result S) (next : S → Result T) {t : T}
    → (first >>= next) ≡ ok t
    → (s : S) × (first ≡ ok s) × (next s ≡ ok t)
>>=-eq-ok (ok s) next h = (s, refl, h)
>>=-eq-ok (err e) next h = cc

pub >>-eq-ok {κ} :
    {T : Type κ} (first : Result (Unit {0})) (next : Result T) {t : T}
    → (first >> next) ≡ ok t
    → (first ≡ ok tt) × (next ≡ ok t)
>>-eq-ok (ok done) next h = (refl, h)
>>-eq-ok (err e) next h = absurd (cc)

pub refuse-eq-ok : (test : Bool) (e : Error) → refuse test e ≡ ok tt → test ≡ false
refuse-eq-ok true e h = absurd (cc)
refuse-eq-ok false e h = refl
