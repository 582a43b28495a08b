-- ===== src/Purchases/Environment.antt =====
-- The environment check of a payment only reads the configuration of the providers.
use opod_service_backend.Prelude.{
  ◌≡◌, refl, Option, String, arith, inl, inr, Bool-cases, if◌then◌else◌,
}
use opod_service_backend.Prelude.Text.{str_eq}
use opod_service_backend.Database.{Database, ok, err, conflict, Result, from_result, Result-cases}
use opod_service_backend.Database.ProviderRows.{PaymentRow}
use opod_service_backend.Payments.{Payments, PaymentEvent, assert_environment}
use opod_service_backend.Purchases.Rows.{assert_payment_environment, is_foreign}

pub from_result-eq-ok :
    {A : Type 0} (q : Result A) (db : Database) {p : A × Database}
    → from_result q db ≡ ok p
    → (q ≡ ok p.0) × (p.1 ≡ db)
from_result-eq-ok (ok a) db e = ground arith
from_result-eq-ok (err x) db e = ground arith

-- A check that passes changes nothing, and passes on every database.
pub assert_environment-ok :
    (payments : Payments) (name : String) (environment : Option String) (db : Database)
    {p : Unit {0} × Database}
    → assert_environment payments name environment db ≡ ok p
    → (p ≡ (tt, db))
      × ((d : Database) → assert_environment payments name environment d ≡ ok (tt, d))
unfolding assert_environment
assert_environment-ok payments name environment db {p} e = elim (Bool-cases (str_eq name "polar")) [
  | inl polar ↦
      let (passed, same) = from_result-eq-ok _ db {p = p} (rw polar at e) in
      (ground arith, λ d. rw (polar, passed) refl)
  | inr other ↦ (ground arith, λ d. rw other refl)
]

pub assert_payment_environment-ok :
    (payments : Payments) (payment : PaymentRow) (event : Option PaymentEvent) (db : Database)
    {p : Unit {0} × Database}
    → assert_payment_environment payments payment event db ≡ ok p
    → (p ≡ (tt, db))
      × ((d : Database) → assert_payment_environment payments payment event d ≡ ok (tt, d))
unfolding assert_payment_environment
assert_payment_environment-ok payments payment event db {p} e =
    elim (Result-cases
      (assert_environment payments payment.provider payment.provider_environment db)) [
        | inl (q, k) ↦
            let (same, again) = assert_environment-ok payments payment.provider _ db k in
            elim (Bool-cases (is_foreign payment event)) [
              | inl foreign ↦ let e' = rw (k, foreign) at e in ground arith
              | inr known ↦
                  let e' = rw (k, same, known) at e in (ground arith, λ d. rw (again d, known) refl)
            ]
        | inr (x, k) ↦ let e' = rw k at e in ground arith
      ]

-- After a check that passes, whether the check of another event, or of none, passes.
pub assert_payment_environment-next :
    (payments : Payments) (payment : PaymentRow) (event next : Option PaymentEvent)
    (db later : Database) {p : Unit {0} × Database}
    → assert_payment_environment payments payment event db ≡ ok p
    → assert_payment_environment payments payment next later ≡ (
        if is_foreign payment next
        then err (conflict "Polar event environment mismatch")
        else ok (tt, later))
unfolding assert_payment_environment
assert_payment_environment-next payments payment event next db later {p} e =
    elim (Result-cases
      (assert_environment payments payment.provider payment.provider_environment db)) [
        | inl (q, k) ↦
            let (_, again) = assert_environment-ok payments payment.provider _ db k in
            elim (Bool-cases (is_foreign payment next)) [
              | inl foreign ↦ rw (again later, foreign) refl
              | inr known ↦ rw (again later, known) refl
            ]
        | inr (x, k) ↦ let e' = rw k at e in ground arith
      ]
