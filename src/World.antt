-- ===== src/World.antt =====
-- What the engines of internal/cleanup, internal/download, internal/drive and internal/staging act
-- on: the store's database, and all that is outside of the program. Their calls of the store go
-- through a driver that may refuse them, and their contexts may end between any two calls.
pub mod Foreign
pub mod Ran
use baidu_drive_mover.Base.{◌≡◌, refl, subst, sym, ap, Option, none, some, Result, ok, err}
use baidu_drive_mover.Base.Effects.{
  Effect, ◌>>=◌, ◌>>◌, lift, Triple, Keeps, bind, weaken, returned, raised, After, After-weaken,
}
use baidu_drive_mover.Text.{Str}
use baidu_drive_mover.State.Model.{StateError}
use baidu_drive_mover.State.Db.{Db, Store}

-- The context of the call, or context.Background().
pub data Context : Type 0 where
  caller background : Context

pub record World (W : Type 0) : Type 0 where
  pub db : Db
  pub outside : W

-- An error of the store's own, of something outside, or of the engine itself.
pub data Failure (E D : Type 0) : Type 0 where
  refused : StateError → Failure E D
  outer : E → Failure E D
  found : D → Failure E D

-- ctx.Err(), time.Now() as the store writes it, and the error with which the driver refuses a call
-- before it does anything, or with which it reports a call that has been committed.
pub record Outside (W E : Type 0) : Type 0 where
  pub cancelled : W → W × Option E
  pub clock : W → W × Str
  pub fault : Context → W → W × Option E
  pub lost : Context → W → W × Option E

-- What these calls leave alone.
pub record IsIdle {W E : Type 0} (o : Outside W E) (P : Db → W → Type 0) : Type 0 where
  pub cancelled : (db : Db) (w : W) → P db w → P db (o.cancelled w).0
  pub clock : (db : Db) (w : W) → P db w → P db (o.clock w).0
  pub fault : (ctx : Context) (db : Db) (w : W) → P db w → P db (o.fault ctx w).0
  pub lost : (ctx : Context) (db : Db) (w : W) → P db w → P db (o.lost ctx w).0

abbrev pub Act : Type 0 → Type 0 → Type 0 → Type 0 → Type 0
Act W E D A = Effect (World W) (Failure E D) A

abbrev moved : {W : Type 0} → World W → W → World W
moved s w = record s { outside = w }

unfoldable pub of_store : {E D A : Type 0} → Result StateError A → Result (Failure E D) A
of_store (ok a) = ok a
of_store (err e) = err (Failure.refused e)

module _ {W E D : Type 0} where
  report_at : World W → W × Option E → World W × Result (Failure E D) (Unit {0})
  report_at s (w, none) = (moved s w, ok tt)
  report_at s (w, some e) = (moved s w, err (Failure.outer e))

  -- A call outside that reports an error or nothing.
  unfoldable pub report : (W → W × Option E) → Act W E D (Unit {0})
  unfolding report_at
  report f s = report_at s (f s.outside)

  outside_at : {A : Type 0} → World W → W × Result E A → World W × Result (Failure E D) A
  outside_at s (w, ok a) = (moved s w, ok a)
  outside_at s (w, err e) = (moved s w, err (Failure.outer e))

  unfoldable pub outside_call : {A : Type 0} → (W → W × Result E A) → Act W E D A
  unfolding outside_at
  outside_call f s = outside_at s (f s.outside)

  unfoldable pub read_clock : (W → W × Str) → Act W E D Str
  read_clock f s = (moved s (f s.outside).0, ok (f s.outside).1)

  -- The method of the store; its own error is a value at first.
  unfoldable pub run_store : {A : Type 0} → Store A → Act W E D (Result StateError A)
  run_store m s = (record s { db = (m s.db).0 }, ok (m s.db).1)

  module _ (o : Outside W E) where
    unfoldable pub check_context : Act W E D (Unit {0})
    check_context = report o.cancelled

    -- A call of the store; a method is given the time of the call.
    unfoldable pub store_call : {A : Type 0} → Context → (Str → Store A) → Act W E D A
    store_call ctx m = do
      report (o.fault ctx)
      now ← read_clock o.clock
      r ← run_store (m now)
      report (o.lost ctx)
      lift (of_store r)

    -- A query.
    unfoldable pub query : {A : Type 0} → Context → (Db → Result StateError A) → Act W E D A
    query ctx f = store_call ctx (λ _ db. (db, f db))

-- The triples of these calls, over a property of the database and the outside.
abbrev pub At : {W : Type 0} → (Db → W → Type 0) → World W → Type 0
At P s = P s.db s.outside

-- The result of a method and the database that it left.
abbrev Ran :
    {W A : Type 0} → (Db → W → Type 0) → (A → Db → Type 0) → Result StateError A → World W → Type 0
Ran {A = A} P T r s = At P s × ((a : A) → r ≡ ok a → T a s.db)

module _ {W E D : Type 0} (P : Db → W → Type 0) where
  report_at-Keeps :
      (s : World W) (r : W × Option E)
      → P s.db r.0
      → After (λ _. At P) (λ _. At P) (report_at {D = D} s r)
  unfolding report_at
  report_at-Keeps s (w, none) p = returned p
  report_at-Keeps s (w, some e) p = raised p

  pub report-Keeps :
      (f : W → W × Option E)
      → ((db : Db) (w : W) → P db w → P db (f w).0)
      → Keeps (At P) (report {D = D} f)
  unfolding report
  report-Keeps f kept s p = report_at-Keeps s (f s.outside) (kept s.db s.outside p)

  outside_at-After :
      {A : Type 0} (s : World W) (r : W × Result E A)
      → P s.db r.0
      → After (λ _. At P) (λ _. At P) (outside_at {D = D} s r)
  unfolding outside_at
  outside_at-After s (w, ok a) p = returned p
  outside_at-After s (w, err e) p = raised p

  pub outside_call-Keeps :
      {A : Type 0} (f : W → W × Result E A)
      → ((s : World W) → At P s → P s.db (f s.outside).0)
      → Keeps (At P) (outside_call {D = D} f)
  unfolding outside_call
  outside_call-Keeps f kept s p = outside_at-After s (f s.outside) (kept s p)

  outside_at-Ran :
      {A : Type 0} (s : World W) (r : W × Result E A)
      → After
          (λ a t. (s.db ≡ t.db) × (r ≡ (t.outside, ok a)))
          (λ _ t. (s.db ≡ t.db) × (r.0 ≡ t.outside))
          (outside_at {D = D} s r)
  unfolding outside_at
  outside_at-Ran s (w, ok a) = returned (refl, refl)
  outside_at-Ran s (w, err e) = raised (refl, refl)

  -- What a call outside returned is what it returns for some state before.
  pub outside_call-Ran :
      {A : Type 0} (f : W → W × Result E A)
      → Triple
          (At P)
          (outside_call {D = D} f)
          (λ a t. (w : W) × P t.db w × (f w ≡ (t.outside, ok a)))
          (λ _ t. (w : W) × P t.db w × ((f w).0 ≡ t.outside))
  unfolding outside_call
  outside_call-Ran f s p =
      After-weaken (outside_at-Ran s (f s.outside))
        (λ a t (same, e). (s.outside, subst (λ db. P db s.outside) same p, e))
        (λ _ t (same, e). (s.outside, subst (λ db. P db s.outside) same p, e))

  module _ (o : Outside W E) (idle : IsIdle o P) where
    pub check_context-Keeps : Keeps (At P) (check_context {D = D} o)
    unfolding check_context
    check_context-Keeps = report-Keeps o.cancelled idle.cancelled

    read_clock-Keeps : Keeps (At P) (read_clock {E = E} {D = D} o.clock)
    unfolding read_clock
    read_clock-Keeps s p = returned (idle.clock s.db s.outside p)

    module _ {A : Type 0} (T : A → Db → Type 0) where
      run_store-Triple :
          (m : Store A)
          → ((db : Db) (w : W) → P db w → P (m db).0 w)
          → ((db : Db) (w : W) (a : A) → P db w → (m db).1 ≡ ok a → T a (m db).0)
          → Triple (At P) (run_store {E = E} {D = D} m) (Ran P T) (λ _. At P)
      unfolding run_store
      run_store-Triple m step result s p =
          returned (step s.db s.outside p, λ a. result s.db s.outside a p)

      lost_report-Ran :
          (r : Result StateError A) (s : World W) (x : W × Option E)
          → P s.db x.0
          → ((a : A) → r ≡ ok a → T a s.db)
          → After (λ _. Ran P T r) (λ _. At P) (report_at {D = D} s x)
      unfolding report_at
      lost_report-Ran r s (w, none) p t = returned (p, t)
      lost_report-Ran r s (w, some e) p t = raised p

      lost-Ran :
          (ctx : Context) (r : Result StateError A)
          → Triple (Ran P T r) (report {D = D} (o.lost ctx)) (λ _. Ran P T r) (λ _. At P)
      unfolding report
      lost-Ran ctx r s p =
          lost_report-Ran r s (o.lost ctx s.outside) (idle.lost ctx s.db s.outside p.0) p.1

      of_store-Triple :
          (r : Result StateError A)
          → Triple
              (Ran P T r)
              (lift {E = Failure E D} (of_store r))
              (λ a s. At P s × T a s.db)
              (λ _. At P)
      unfolding lift of_store
      of_store-Triple (ok a) s p = returned (p.0, p.1 a refl)
      of_store-Triple (err e) s p = raised p.0

      -- A call of the store. What it returns is what the method returned, at some time, for the
      -- database before.
      pub store_call-Triple :
          (ctx : Context) (m : Str → Store A)
          → ((now : Str) (db : Db) (w : W) → P db w → P (m now db).0 w)
          → ((now : Str) (db : Db) (w : W) (a : A)
              → P db w
              → (m now db).1 ≡ ok a
              → T a (m now db).0)
          → Triple (At P) (store_call {D = D} o ctx m) (λ a s. At P s × T a s.db) (λ _. At P)
      unfolding store_call
      store_call-Triple ctx m step result = bind (report-Keeps (o.fault ctx) (idle.fault ctx)) λ _.
          bind read_clock-Keeps λ now.
            bind (run_store-Triple (m now) (step now) (result now))
              λ r. bind (lost-Ran ctx r) λ _. of_store-Triple r

    pub store_call-Keeps :
        {A : Type 0} (ctx : Context) (m : Str → Store A)
        → ((now : Str) (db : Db) (w : W) → P db w → P (m now db).0 w)
        → Keeps (At P) (store_call {D = D} o ctx m)
    store_call-Keeps ctx m step =
        weaken (store_call-Triple (λ _ _. Unit {0}) ctx m step (λ _ _ _ _ _ _. tt)) (λ s p. p)
          (λ a s q. q.0) (λ e s p. p)

    pub query-Triple :
        {A : Type 0} (T : A → Db → Type 0) (ctx : Context) (f : Db → Result StateError A)
        → ((db : Db) (w : W) (a : A) → P db w → f db ≡ ok a → T a db)
        → Triple (At P) (query {D = D} o ctx f) (λ a s. At P s × T a s.db) (λ _. At P)
    unfolding query
    query-Triple T ctx f result =
        store_call-Triple T ctx (λ _ db. (db, f db)) (λ _ _ _ p. p) (λ _. result)
