-- ===== src/Base/Effects.antt =====
-- Code that acts on a state and may fail, as a Go function that returns `(A, error)`: what it did
-- before the error stays done. And the triples by which its proofs are put together.
use mathlib.Core.Path.{◌≡◌, refl, subst, sym, ap, ◌∙◌}
use mathlib.Core.Bool.{Bool, true, false}
use mathlib.Core.Option.{Option, none, some}
use baidu_drive_mover.Base.Tests.{if◌then◌else◌}
use baidu_drive_mover.Base.Outcome.{Result, ok, err, err≢ok}

abbrev pub Effect : Type 0 → Type 0 → Type 0 → Type 0
Effect S E A = S → S × Result E A

module _ {S E : Type 0} where
  unfoldable pub continue : {A B : Type 0} → (A → Effect S E B) → S × Result E A → S × Result E B
  continue f (s, ok a) = f a s
  continue f (s, err e) = (s, err e)

  infixl 5 ◌>>=◌ ◌>>◌
  unfoldable pub ◌>>=◌ : {A B : Type 0} → Effect S E A → (A → Effect S E B) → Effect S E B
  unfolding continue
  ◌>>=◌ m f s = continue f (m s)

  abbrev pub ◌>>◌ : {B : Type 0} → Effect S E (Unit {0}) → Effect S E B → Effect S E B
  m >> k = m >>= λ _. k

  unfoldable pub return : {A : Type 0} → A → Effect S E A
  return a s = (s, ok a)

  unfoldable pub raise : {A : Type 0} → E → Effect S E A
  raise e s = (s, err e)

  unfoldable pub read_state : Effect S E S
  read_state s = (s, ok s)

  -- The value of a pure function that may fail.
  unfoldable pub lift : {A : Type 0} → Result E A → Effect S E A
  lift r s = (s, r)

  unfoldable pub expect : {A : Type 0} → Option A → E → Effect S E A
  expect none e s = (s, err e)
  expect (some a) e s = (s, ok a)

  -- An error is returned unless a test holds.
  unfoldable pub require : Bool → E → Effect S E (Unit {0})
  require true e s = (s, ok tt)
  require false e s = (s, err e)

  -- A call whose result is thrown away: `_ = f()`.
  unfoldable pub ignore : {A : Type 0} → Effect S E A → Effect S E (Unit {0})
  ignore m s = ((m s).0, ok tt)

  -- A call whose error the caller looks at.
  unfoldable pub handled :
      {A B : Type 0} → (A → Effect S E B) → (E → Effect S E B) → S × Result E A → S × Result E B
  handled f g (s, ok a) = f a s
  handled f g (s, err e) = g e s

  unfoldable pub handle :
      {A B : Type 0} → Effect S E A → (A → Effect S E B) → (E → Effect S E B) → Effect S E B
  unfolding handled
  handle m f g s = handled f g (m s)

  -- A call whose error is a value at first.
  unfoldable pub caught_at : {A : Type 0} → S × Result E A → S × Result E (Option E)
  caught_at (s, ok a) = (s, ok none)
  caught_at (s, err e) = (s, ok (some e))

  unfoldable pub caught : {A : Type 0} → Effect S E A → Effect S E (Option E)
  unfolding caught_at
  caught m s = caught_at (m s)

  -- What holds behind a call: of the value and the state if it succeeds, and of the error and the
  -- state if it fails.
  pub data After {A : Type 0} (Q : A → S → Type 0) (R : E → S → Type 0)
      : S × Result E A → Type 0 where
    returned : {s : S} {a : A} → Q a s → After Q R (s, ok a)
    raised : {s : S} {e : E} → R e s → After Q R (s, err e)

  abbrev pub Triple :
      {A : Type 0} → (S → Type 0) → Effect S E A → (A → S → Type 0) → (E → S → Type 0) → Type 0
  Triple P m Q R = (s : S) → P s → After Q R (m s)

module _ {S E : Type 0} {R : E → S → Type 0} {A : Type 0} {Q : A → S → Type 0} where
  pub After-ok : {r : S × Result E A} {a : A} → After Q R r → r.1 ≡ ok a → Q a r.0
  After-ok (returned {s} q) h = subst (λ x. Q x s) (cc) q
  After-ok (raised r) h = cc

  pub After-err : {r : S × Result E A} {e : E} → After Q R r → r.1 ≡ err e → R e r.0
  After-err (returned q) h = cc
  After-err (raised {s} r) h = subst (λ x. R x s) (cc) r

module _ {S E : Type 0} {R : E → S → Type 0} {A : Type 0} {Q : A → S → Type 0} where
  pub After-continue :
      {B : Type 0} {Q' : B → S → Type 0} {r : S × Result E A} {f : A → Effect S E B}
      → After Q R r
      → ((a : A) (s : S) → Q a s → After Q' R (f a s))
      → After Q' R (continue f r)
  unfolding continue
  After-continue (returned q) next = next _ _ q
  After-continue (raised r) next = raised r

  pub After-weaken :
      {Q' : A → S → Type 0} {R' : E → S → Type 0} {r : S × Result E A}
      → After Q R r
      → ((a : A) (s : S) → Q a s → Q' a s)
      → ((e : E) (s : S) → R e s → R' e s)
      → After Q' R' r
  After-weaken (returned q) f g = returned (f _ _ q)
  After-weaken (raised r) f g = raised (g _ _ r)

  pub After-handled :
      {B : Type 0} {Q' : B → S → Type 0} {R' : E → S → Type 0} {r : S × Result E A}
      {f : A → Effect S E B} {g : E → Effect S E B}
      → After Q R r
      → ((a : A) (s : S) → Q a s → After Q' R' (f a s))
      → ((e : E) (s : S) → R e s → After Q' R' (g e s))
      → After Q' R' (handled f g r)
  unfolding handled
  After-handled (returned q) f g = f _ _ q
  After-handled (raised r) f g = g _ _ r

  pub After-both :
      {Q' : A → S → Type 0} {R' : E → S → Type 0} {r : S × Result E A}
      → After Q R r
      → After Q' R' r
      → After (λ a s. Q a s × Q' a s) (λ e s. R e s × R' e s) r
  After-both (returned q) h = returned (q, After-ok h refl)
  After-both (raised r) h = raised (r, After-err h refl)

  -- What holds whether the call fails or not.
  pub After-state :
      {r : S × Result E A} (P : S → Type 0)
      → After Q R r
      → ((a : A) (s : S) → Q a s → P s)
      → ((e : E) (s : S) → R e s → P s)
      → P r.0
  After-state P (returned q) f g = f _ _ q
  After-state P (raised r) f g = g _ _ r

module _ {S E : Type 0} {P : S → Type 0} {R : E → S → Type 0} {A : Type 0}
    {Q : A → S → Type 0} where
  pub bind :
      {B : Type 0} {m : Effect S E A} {f : A → Effect S E B} {Q' : B → S → Type 0}
      → Triple P m Q R
      → ((a : A) → Triple (Q a) (f a) Q' R)
      → Triple P (m >>= f) Q' R
  unfolding ◌>>=◌
  bind first next s p = After-continue (first s p) next

  pub weaken :
      {m : Effect S E A} {P' : S → Type 0} {Q' : A → S → Type 0} {R' : E → S → Type 0}
      → Triple P m Q R
      → ((s : S) → P' s → P s)
      → ((a : A) (s : S) → Q a s → Q' a s)
      → ((e : E) (s : S) → R e s → R' e s)
      → Triple P' m Q' R'
  weaken t before after failed s p = After-weaken (t s (before s p)) after failed

  pub return-Triple : (a : A) → ((s : S) → P s → Q a s) → Triple P (return a) Q R
  unfolding return
  return-Triple a h s p = returned (h s p)

  pub raise-Triple : (e : E) → ((s : S) → P s → R e s) → Triple P (raise e) Q R
  unfolding raise
  raise-Triple e h s p = raised (h s p)

  pub expect-Triple :
      (o : Option A) (e : E)
      → ((s : S) (a : A) → P s → o ≡ some a → Q a s)
      → ((s : S) → P s → R e s)
      → Triple P (expect o e) Q R
  unfolding expect
  expect-Triple none e found missing s p = raised (missing s p)
  expect-Triple (some a) e found missing s p = returned (found s a p refl)

  pub lift-Triple :
      (r : Result E A)
      → ((s : S) (a : A) → P s → r ≡ ok a → Q a s)
      → ((s : S) (e : E) → P s → R e s)
      → Triple P (lift r) Q R
  unfolding lift
  lift-Triple (ok a) good bad s p = returned (good s a p refl)
  lift-Triple (err e) good bad s p = raised (bad s e p)

  pub if-Triple :
      (b : Bool) {m k : Effect S E A}
      → (b ≡ true → Triple P m Q R)
      → (b ≡ false → Triple P k Q R)
      → Triple P (if b then m else k) Q R
  if-Triple true yes_ no_ = yes_ refl
  if-Triple false yes_ no_ = no_ refl

  pub handle-Triple :
      {B : Type 0} {R' : E → S → Type 0} {m : Effect S E A} {f : A → Effect S E B}
      {g : E → Effect S E B} {Q' : B → S → Type 0}
      → Triple P m Q R
      → ((a : A) → Triple (Q a) (f a) Q' R')
      → ((e : E) → Triple (R e) (g e) Q' R')
      → Triple P (handle m f g) Q' R'
  unfolding handle
  handle-Triple first next caught s p = After-handled (first s p) next caught

module _ {S E : Type 0} {P Q : S → Type 0} {R : E → S → Type 0} where
  pub require-Triple :
      (b : Bool) (e : E)
      → ((s : S) → P s → b ≡ true → Q s)
      → ((s : S) → P s → b ≡ false → R e s)
      → Triple P (require b e) (λ _. Q) R
  unfolding require
  require-Triple true e holds fails s p = returned (holds s p refl)
  require-Triple false e holds fails s p = raised (fails s p refl)

-- Of any call something holds.
pub After-any :
    {S E A : Type 0} (r : S × Result E A)
    → After (λ (a : A) (s : S). Unit {0}) (λ (e : E) (s : S). Unit {0}) r
After-any (s, ok a) = returned tt
After-any (s, err e) = raised tt

-- A call that keeps `P`, whatever becomes of it.
abbrev pub Keeps : {S E A : Type 0} → (S → Type 0) → Effect S E A → Type 0
Keeps P m = Triple P m (λ _. P) (λ _. P)

pub ignore-Triple :
    {S E A : Type 0} {P : S → Type 0} {R : E → S → Type 0} (m : Effect S E A)
    → Keeps P m
    → Triple P (ignore m) (λ _. P) R
unfolding ignore
ignore-Triple m keeps s p = returned (After-state _ (keeps s p) (λ _ _ q. q) (λ _ _ q. q))

module _ {S E A : Type 0} {Q : S → Type 0} {R : E → S → Type 0} where
  caught_at-After :
      {r : S × Result E A} → After (λ _. Q) (λ _. Q) r → After (λ _. Q) R (caught_at r)
  unfolding caught_at
  caught_at-After (returned q) = returned q
  caught_at-After (raised q) = returned q

  pub caught-Triple :
      {P : S → Type 0} {m : Effect S E A}
      → Triple P m (λ _. Q) (λ _. Q)
      → Triple P (caught m) (λ _. Q) R
  unfolding caught
  caught-Triple t s p = caught_at-After (t s p)

-- Inversion of a call that succeeds.
module _ {S E A B : Type 0} where
  continue-ok :
      (f : A → Effect S E B) (r : S × Result E A) {b : B}
      → (continue f r).1 ≡ ok b
      → (a : A) × (t : S) × (r ≡ (t, ok a)) × (continue f r ≡ f a t)
  unfolding continue
  continue-ok f (s, ok a) h = (a, s, refl, refl)
  continue-ok f (s, err e) h = absurd (err≢ok h)

  pub >>=-ok :
      (m : Effect S E A) (f : A → Effect S E B) (s : S) {b : B}
      → ((m >>= f) s).1 ≡ ok b
      → (a : A) × (t : S) × (m s ≡ (t, ok a)) × ((m >>= f) s ≡ f a t) × ((f a t).1 ≡ ok b)
  unfolding ◌>>=◌
  >>=-ok m f s h =
      let (a, t, ran, same) = continue-ok f (m s) h in
      (a, t, ran, same, sym (ap (λ r. r.1) same) ∙ h)

-- What a call returned is what it returns for some state before.
pub ran-Triple :
    {S E A : Type 0} (P : S → Type 0) (m : Effect S E A)
    → Triple P m (λ a t. (s : S) × P s × (m s ≡ (t, ok a))) (λ _ _. Unit {0})
ran-Triple {S} {E} {A} P m s p = ran_at (m s) refl
  where
    ran_at :
        (r : S × Result E A)
        → m s ≡ r
        → After (λ a t. (s : S) × P s × (m s ≡ (t, ok a))) (λ _ _. Unit {0}) r
    ran_at (t, ok a) h = returned (s, p, h)
    ran_at (t, err e) h = raised tt
