-- ===== src/State/Invert.antt =====
-- Inversion of the statements that only read: a transaction that succeeds has passed its guards.
use baidu_drive_mover.Base.{
  ok-eq, ap, ◌∙◌, ◌⊎◌, inl, inr, Result-cases, ◌≡◌, refl, Bool, true, false, Option, none, some,
  Result, ok, err, arith, err≢ok,
}
use baidu_drive_mover.State.Model.{StateError}
use baidu_drive_mover.State.Db.{Db, Tx, in_tx, ◌>>=◌, ◌>>◌, get, guard, expect, lift, return}

module _ {ℓ} {B : Type ℓ} {db after : Db} {b : B} where
  pub get_then : (k : Db → Tx B) → (get >>= k) db ≡ ok (b, after) → k db db ≡ ok (b, after)
  unfolding get ◌>>=◌
  get_then k h = h

  pub guard_then :
      (test : Bool) (e : StateError) (k : Tx B)
      → (guard test e >> k) db ≡ ok (b, after)
      → (test ≡ true) × (k db ≡ ok (b, after))
  unfolding guard ◌>>=◌
  guard_then true e k h = (refl, h)
  guard_then false e k h = cc

  pub expect_then {κ} :
      {A : Type κ} (o : Option A) (e : StateError) (k : A → Tx B)
      → (expect o e >>= k) db ≡ ok (b, after)
      → (a : A) × (o ≡ some a) × (k a db ≡ ok (b, after))
  unfolding expect ◌>>=◌
  expect_then none e k h = cc
  expect_then (some a) e k h = (a, refl, h)

  pub lift_then {κ} :
      {A : Type κ} (r : Result StateError A) (k : A → Tx B)
      → (lift r >>= k) db ≡ ok (b, after)
      → (a : A) × (r ≡ ok a) × (k a db ≡ ok (b, after))
  unfolding lift ◌>>=◌
  lift_then (err e) k h = cc
  lift_then (ok a) k h = (a, refl, h)

  pub return_lem : (x : B) → return x db ≡ ok (b, after) → (b ≡ x) × (after ≡ db)
  unfolding return
  return_lem x h = ground arith

-- A transaction fails and changes nothing, or commits what its body has done.
pub in_tx-cases {ℓ} :
    {A : Type ℓ} (m : Tx A) (db : Db)
    → ((e : StateError) × (in_tx m db ≡ (db, err e)))
      ⊎ ((a : A) × (after : Db) × (m db ≡ ok (a, after)) × (in_tx m db ≡ (after, ok a)))
unfolding in_tx
in_tx-cases m db = elim (Result-cases (m db)) [
  | inl (e, failed) ↦ inl (e, rw (failed, in_tx) refl)
  | inr ((a, after), ran) ↦ inr (a, after, ran, rw (ran, in_tx) refl)
]

-- A transaction that succeeds has run its body, and committed.
pub in_tx-ok {ℓ} :
    {A : Type ℓ} (m : Tx A) (db : Db) {a : A}
    → (in_tx m db).1 ≡ ok a
    → (after : Db) × (m db ≡ ok (a, after)) × ((in_tx m db).0 ≡ after)
unfolding in_tx
in_tx-ok m db h = elim (Result-cases (m db)) [
  | inl (e, failed) ↦ absurd (err≢ok (rw (failed, in_tx) at h))
  | inr ((b, after), ran) ↦
      let same = ok-eq (rw (ran, in_tx) at h) in
      (after, ran ∙ ap (λ c. ok (c, after)) same, rw (ran, in_tx) refl)
]

-- A guard at the end of a transaction.
pub guard_lem :
    (test : Bool) (e : StateError) {db after : Db} {a : Unit {0}}
    → guard test e db ≡ ok (a, after)
    → (test ≡ true) × (after ≡ db)
unfolding guard
guard_lem true e h = ground arith
guard_lem false e h = absurd (err≢ok h)
