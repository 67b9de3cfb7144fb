-- ===== src/World/Ran.antt =====
-- What a method of the store returned is what it returns, at some time, for a database before.
use baidu_drive_mover.Base.{◌≡◌, refl, Result, ok, err}
use baidu_drive_mover.Base.Effects.{Triple, Keeps, bind, weaken, returned, raised, lift}
use baidu_drive_mover.Text.{Str}
use baidu_drive_mover.State.Model.{StateError}
use baidu_drive_mover.State.Db.{Db, Store}
use baidu_drive_mover.World.{
  World, Failure, Outside, IsIdle, Act, Context, run_store, of_store, store_call, report-Keeps,
  read_clock-Keeps,
}

-- What is known of the database behind the method.
abbrev pub StoreRan :
    {A : Type 0} → (Db → Type 0) → (Str → Store A) → Result StateError A → Db → Type 0
StoreRan P m r after = (now : Str) × (db : Db) × P db × ((m now db).1 ≡ r) × ((m now db).0 ≡ after)

pub idle_db : {W E : Type 0} (o : Outside W E) (P : Db → Type 0) → IsIdle o (λ db _. P db)
idle_db o P = record {
  cancelled = λ _ _ p. p;
  clock = λ _ _ p. p;
  fault = λ _ _ _ p. p;
  lost = λ _ _ _ p. p;
}

-- A call that keeps what is known, where it does not matter what it leaves when it fails.
pub forget :
    {W E D A : Type 0} {Q : World W → Type 0} {m : Act W E D A}
    → Keeps Q m
    → Triple Q m (λ _. Q) (λ _ _. Unit {0})
forget t = weaken t (λ s p. p) (λ _ s p. p) (λ _ s p. tt)

module _ {W E D : Type 0} (o : Outside W E) (P : Db → Type 0) where
  of_store-Ran :
      {A : Type 0} (m : Str → Store A) (r : Result StateError A)
      → Triple
          (λ s. StoreRan P m r s.db)
          (lift {S = World W} {E = Failure E D} (of_store r))
          (λ a s. StoreRan P m (ok a) s.db)
          (λ _ _. Unit {0})
  unfolding lift of_store
  of_store-Ran m (ok a) s p = returned p
  of_store-Ran m (err e) s p = raised tt

  run_store-Ran :
      {A : Type 0} (m : Str → Store A) (now : Str)
      → Triple
          (λ s. P s.db)
          (run_store {W = W} {E = E} {D = D} (m now))
          (λ r s. StoreRan P m r s.db)
          (λ _ _. Unit {0})
  unfolding run_store
  run_store-Ran m now s p = returned (now, s.db, p, refl, refl)

  pub store_call-Ran :
      {A : Type 0} (ctx : Context) (m : Str → Store A)
      → Triple
          (λ s. P s.db)
          (store_call {D = D} o ctx m)
          (λ a s. StoreRan P m (ok a) s.db)
          (λ _ _. Unit {0})
  unfolding store_call
  store_call-Ran ctx m = bind (forget (report-Keeps (λ db _. P db) (o.fault ctx) (λ _ _ p. p))) λ _.
      bind (forget (read_clock-Keeps (λ db _. P db) o (idle_db o P))) λ now.
        bind (run_store-Ran m now) λ r.
          bind (forget (report-Keeps (λ db _. StoreRan P m r db) (o.lost ctx) (λ _ _ p. p)))
            λ _. of_store-Ran m r
